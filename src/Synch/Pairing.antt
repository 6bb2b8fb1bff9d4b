-- ===== src/Synch/Pairing.antt =====
-- Pairs of operations of Projects/OS161/kern/thread/synch.c that undo each other.
use windborne.Base.{ℕ, ◌-◌, ◌^◌, ◌≡◌, refl, ◌∙◌, ap, true, List, some, ok, arith, ◌>>=◌}
use windborne.Base.Int.{int_inc, int_dec, ℤ, pos, negsuc, ◌≤ℤ◌}
use windborne.Spl.{is_zero}
use windborne.Platform.{Platform, Laws}
use windborne.Thread.Invariant.{Inv}
use windborne.Synch.State.{Semaphore, Synch, outside, put}
use windborne.Synch.Semaphores.{proberen, verhogen}
use windborne.Synch.Counting.{verhogen_lem, proberen_takes, int_inc_lem}

pub put_self {ℓ} : {A : Type ℓ} (f : ℕ → A) (p : ℕ) (a : A) → put f p a p ≡ a
put_self f p a = ground arith

int_dec-int_inc : (c : ℤ) → pos 0 ≤ℤ c → c ≤ℤ pos (2 ^ 31 - 2) → int_dec (int_inc c) ≡ c
int_dec-int_inc (pos n) low high = ground arith
int_dec-int_inc (negsuc n) low high = absurd (omega arith)

-- A `V` and a `P` behind it by the same thread, from the invariant, outside interrupt handlers, on
-- a semaphore whose count is neither negative nor the greatest `int`: the `P` does not sleep, the
-- count is what it was, and the same thread runs at its level.
pub proberen-verhogen :
    {P : Platform} (L : Laws P) (cur sem : ℕ) (k : Semaphore) (s : Synch P) (wakes : List ℕ)
    → s.sems sem ≡ some k
    → Inv P cur s.sys
    → is_zero s.sys.cpu.in_interrupt ≡ true
    → pos 0 ≤ℤ k.count
    → k.count ≤ℤ pos (2 ^ 31 - 2)
    → (s' : Synch P) × ((verhogen P sem s >>= proberen P wakes sem) ≡ ok s')
      × (s'.sems sem ≡ some k)
      × (s'.sys.curthread ≡ some cur)
      × (s'.sys.cpu ≡ s.sys.cpu)
proberen-verhogen {P} L cur sem k s wakes here v outer low high =
    let posted = verhogen_lem L cur sem k s here v low high in
    let more = record k { count = int_inc k.count } in
    let t = record (s.sys) { sleepers = posted.array; runqueue = posted.queue } in
    let s1 = record s { sys = t; sems = put s.sems sem (some more) } in
    let s2 = record s1 {
      sems = put s1.sems sem (some (record more { count = int_dec more.count }));
      resting = put s1.resting cur outside;
    } in
    (
      s2,
      rw posted.result (
          proberen_takes L cur wakes sem more s1 (put_self s.sems sem (some more)) posted.intact
            outer (int_inc_lem k.count low high)),
      put_self s1.sems sem (some (record more { count = int_dec more.count }))
          ∙ ap (λ c. some (record k { count = c })) (int_dec-int_inc k.count low high),
      v.running,
      refl,
    )
