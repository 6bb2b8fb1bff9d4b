-- ===== src/Clock/Ticks.antt =====
-- What a tick of Projects/OS161/kern/thread/hardclock.c does to the thread system.
use windborne.Base.{
  ℕ, ◌+◌, ◌<◌, ◌^◌, ◌≡◌, refl, sym, ap, ◌∙◌, subst, inl, inr, Bool, true, false, not, List, [], ◌∷◌,
  Outcome, ok, ok_inj, arith, ltb, Bool-cases, ◌++◌, append-nil, if◌then◌else◌,
}
use windborne.Base.Int.{ℤ, pos, ltb_ℤ, int_inc}
use windborne.Spl.{spl_raised}
use windborne.Platform.{Platform, Laws}
use windborne.Thread.State.{Sys}
use windborne.Thread.Wakeup.{kept, woken, thread_wakeup_lem}
use windborne.Thread.Waking.{Inv_lem, Woken-Inv}
use mathlib.Core.Option.{some-injective}
use windborne.Thread.RoundRobin.{thread_yield_round_robin}
use windborne.Thread.Operations.{thread_yield-Inv}
use windborne.Thread.Invariant.{Inv}
use windborne.Clock.Hardclock.{tick, hardclock}

-- The tick with which the count gets to HZ.
abbrev pub is_due : ℕ → ℕ → Bool
is_due hz n = not (ltb (n + 1) hz)

-- The threads that a tick wakes, and those that sleep on.
abbrev pub rung : {P : Platform} → ℕ → ℕ → ℕ → Sys P → List ℕ
rung {P} hz lbolt n s = if is_due hz n then woken s.heap lbolt (P.items s.sleepers) else []

abbrev pub unrung : {P : Platform} → ℕ → ℕ → ℕ → Sys P → List ℕ
unrung {P} hz lbolt n s =
    if is_due hz n then kept s.heap lbolt (P.items s.sleepers) else P.items s.sleepers

-- Thread `nu` runs, and the others that are to run wait behind it in their order.
abbrev pub Ticks : {P : Platform} → ℕ → ℕ → ℕ → ℕ → Sys P → Outcome (ℤ × Sys P) → Type 0
Ticks {P} hz lbolt cur n s o =
    (u : Sys P) × (nu : ℕ) × (o ≡ ok (pos (if is_due hz n then 0 else n + 1), u))
    × Inv P nu u
    × (nu ∷ P.q_items u.runqueue ≡ P.q_items s.runqueue ++ rung hz lbolt n s ++ cur ∷ [])
    × (P.items u.sleepers ≡ unrung hz lbolt n s)

first_of : (xs : List ℕ) (x : ℕ) → (y : ℕ) × (ys : List ℕ) × (xs ++ x ∷ [] ≡ y ∷ ys)
first_of [] x = (x, [], refl)
first_of (y ∷ ys) x = (y, ys ++ x ∷ [], refl)

module _ {P : Platform} (L : Laws P) (hz lbolt cur n : ℕ) (wakes : List ℕ) (s : Sys P) where
  counted : n < hz → hz < 2 ^ 31 → int_inc (pos n) ≡ pos (n + 1)
  counted h b = ground arith

  -- The state in which the thread yields.
  tick_lem :
      n < hz
      → hz < 2 ^ 31
      → spl_raised s.cpu ≡ true
      → Inv P cur s
      → (t : Sys P) × (tick P hz lbolt (pos n) s ≡ ok (pos (if is_due hz n then 0 else n + 1), t))
        × (P.items t.sleepers ≡ unrung hz lbolt n s)
        × (P.q_items t.runqueue ≡ P.q_items s.runqueue ++ rung hz lbolt n s)
        × Inv P cur t
  unfolding tick
  tick_lem h b raised v = elim (Bool-cases (ltb (n + 1) hz)) [
    | inl below ↦
        let not_due : not (ltb_ℤ (pos (n + 1)) (pos hz)) ≡ false = ground arith in
        (
          s,
          rw (tick, counted h b, not_due, below) refl,
          rw below refl,
          rw below (sym (append-nil (P.q_items s.runqueue))),
          v,
        )
    | inr due ↦
        let is_over : not (ltb_ℤ (pos (n + 1)) (pos hz)) ≡ true = ground arith in
        let w =
          thread_wakeup_lem P L lbolt s raised (Inv_lem L cur lbolt s v).0
            (Inv_lem L cur lbolt s v).1 in
        (
          record s { sleepers = w.array; runqueue = w.queue },
          rw (tick, counted h b, is_over, w.result, due) refl,
          rw due w.asleep,
          rw due w.ready,
          Woken-Inv L cur lbolt s v w,
        )
  ]

  -- A tick of the clock, at a raised interrupt level, from the invariant of the thread system and
  -- with the count below HZ, which is below 2 ^ 31, returns. The count goes on by one, or, where
  -- that is HZ, starts again at 0 as the threads that sleep at `lbolt`, and no others, become ready
  -- in their order. Then the running thread is put behind all that are ready, and the first of
  -- them runs, with the invariant, the others staying in their order on the run queue.
  pub hardclock_lem :
      n < hz
      → hz < 2 ^ 31
      → spl_raised s.cpu ≡ true
      → Inv P cur s
      → Ticks hz lbolt cur n s (hardclock P hz lbolt wakes (pos n) s)
  unfolding hardclock
  hardclock_lem h b raised v =
      let (t, ticked, asleep, ready, v') = tick_lem h b raised v in
      let (nu, rest, order) = first_of (P.q_items t.runqueue) cur in
      let (u, yielded, now, queue, same, _) =
        thread_yield_round_robin L cur t wakes v' nu rest order in
      elim (thread_yield-Inv L cur t wakes v') [
        | inl waits ↦ cc (yielded, waits)
        | inr (p, (x, result, inv)) ↦
            let e : x ≡ u = ok_inj (sym result ∙ yielded) in
            let who : p ≡ nu =
              some-injective p nu (sym inv.running ∙ ap (λ (y : Sys P). y.curthread) e ∙ now) in
            (
              u,
              nu,
              rw (hardclock, ticked, yielded) refl,
              subst (λ q. Inv P q u) who (subst (Inv P p) e inv),
              ap (λ l. nu ∷ l) queue ∙ sym order ∙ ap (λ l. l ++ cur ∷ []) ready,
              ap P.items same ∙ asleep,
            )
      ]
