-- ===== src/Synch/Ownership.antt =====
-- The locks of Projects/OS161/kern/thread/synch.c against a lock that is free or has an owner.
use windborne.Base.{
  ℕ, ◌≡◌, ◌≢◌, refl, ◌⊎◌, inl, inr, true, List, Option, none, some, Outcome, ok, arith, ◌>>=◌, ◌&&◌,
  Bool, Option-cases, if◌then◌else◌,
}
use windborne.Base.Int.{ℤ, pos}
use windborne.Spl.{is_zero, splhigh}
use windborne.Spl.Nesting.{splx-splhigh}
use windborne.Platform.{Platform, Laws}
use windborne.Thread.Switch.{thread_sleep}
use windborne.Thread.Invariant.{Inv}
use windborne.Thread.Operations.{at_high, high-Inv, high_raised}
use windborne.Synch.State.{Lock, Synch, outside, in_acquire, put}
use windborne.Synch.Semaphores.{raise, lower}
use windborne.Synch.Locks.{
  is_one, same_pointer, acquire_done, acquire_loop, lock_acquire, lock_do_i_hold,
}
use windborne.Synch.Falling.{Sleeps, sleep_lem, in_interrupt-splhigh}

-- The abstract lock.
abbrev pub owner : Lock → Option ℕ
owner l = if is_zero l.held then none else l.holder

-- `held` is a flag, and who holds the lock is known.
pub record IsLock (l : Lock) : Type 0 where
  pub flag : (l.held ≡ pos 0) ⊎ (l.held ≡ pos 1)
  pub known : l.held ≡ pos 1 → l.holder ≢ none

-- The answer of `lock_do_i_hold`.
pub owns_lem :
    (o : Option ℕ) (h : ℤ) (cur : ℕ)
    → (h ≡ pos 0) ⊎ (h ≡ pos 1)
    → ((same_pointer o (some cur) && is_one h) ≡ true → (if is_zero h then none else o) ≡ some cur)
      × ((if is_zero h then none else o) ≡ some cur
          → (same_pointer o (some cur) && is_one h) ≡ true)
owns_lem none h cur (inl e) = (λ k. ground arith, λ k. ground arith)
owns_lem none h cur (inr e) = (λ k. ground arith, λ k. ground arith)
owns_lem (some p) h cur (inl e) = (λ k. ground arith, λ k. ground arith)
owns_lem (some p) h cur (inr e) = (λ k. ground arith, λ k. ground arith)

module _ {P : Platform} (L : Laws P) (cur : ℕ) (wakes : List ℕ) (lock : ℕ) (l : Lock) (s : Synch P)
    (here : s.locks lock ≡ some l) (v : Inv P cur s.sys) where
  abbrev pub mine : Lock
  mine = record l { held = pos 1; holder = some cur }

  -- The end of a call of `lock_acquire`.
  abbrev pub Acquires : Outcome (Synch P) → Type 0
  Acquires o =
      ((owner l ≡ none)
        × (o
            ≡ ok (record s {
              locks = put s.locks lock (some mine);
              resting = put s.resting cur outside;
            }))
        × (owner mine ≡ some cur)
        × IsLock mine)
      ⊎ ((p : ℕ) × (owner l ≡ some p)
          × Sleeps cur wakes lock (in_acquire lock s.sys.cpu.curspl) s o)

  acquire_free :
      l.held ≡ pos 0
      → lock_acquire P wakes lock s
        ≡ ok
            (record s { locks = put s.locks lock (some mine); resting = put s.resting cur outside })
  unfolding lock_acquire acquire_loop acquire_done raise lower splhigh
  acquire_free e =
      rw (v.running, here, e, (splx-splhigh P.spl_high s.sys.cpu L.spl_high_pos v.consistent).2)
        refl

  acquire_held :
      l.held ≡ pos 1
      → lock_acquire P wakes lock s ≡ (
          thread_sleep P wakes lock (at_high L cur s.sys) >>= λ t.
          ok (record s { sys = t; resting = put s.resting cur (in_acquire lock s.sys.cpu.curspl) }))
  unfolding lock_acquire acquire_loop raise splhigh
  acquire_held e = rw (v.running, here, e) refl

  acquire-Sleeps :
      is_zero s.sys.cpu.in_interrupt ≡ true
      → l.held ≡ pos 1
      → Sleeps cur wakes lock (in_acquire lock s.sys.cpu.curspl) s (lock_acquire P wakes lock s)
  acquire-Sleeps outer held = rw (acquire_held held) (
      sleep_lem L cur wakes lock (in_acquire lock s.sys.cpu.curspl)
        (record s { sys = at_high L cur s.sys }) (high_raised P.spl_high s.sys.cpu L.spl_high_pos).0
        (in_interrupt-splhigh P.spl_high s.sys.cpu outer) (high-Inv L cur s.sys v))

  -- `lock_acquire`, called from the invariant, outside interrupt handlers, on a lock that is free
  -- or has a holder. A free lock is the caller's at once, and threads, lists and interrupt level
  -- are what they were. Where the lock has an owner, even the caller itself, it stays as it is and
  -- the caller goes to sleep in the loop: the processor idles, as nobody was ready, or a
  -- thread runs with the invariant. Unless an interrupt has woken the sleepers on the lock before
  -- that, the thread is another one, and the caller is a sleeper whose address is the lock's.
  -- Nothing panics.
  pub lock_acquire_lem :
      is_zero s.sys.cpu.in_interrupt ≡ true → IsLock l → Acquires (lock_acquire P wakes lock s)
  lock_acquire_lem outer k = elim k.flag [
    | inl free ↦
        inl (rw free refl, acquire_free free, refl, record { flag = inr refl; known = λ _ e. cc })
    | inr held ↦ elim (Option-cases l.holder) [
      | inl unknown ↦ absurd (k.known held unknown)
      | inr (p, holder) ↦ inr (p, rw (held, holder) refl, acquire-Sleeps outer held)
    ]
  ]

  pub hold_result :
      lock_do_i_hold P lock s ≡ ok (same_pointer l.holder (some cur) && is_one l.held, s)
  unfolding lock_do_i_hold raise lower splhigh
  hold_result =
      rw (v.running, here, (splx-splhigh P.spl_high s.sys.cpu L.spl_high_pos v.consistent).2) refl

  -- `lock_do_i_hold`, called from the invariant on a lock that is free or has a holder, returns
  -- whether the caller owns the lock, and changes nothing.
  pub lock_do_i_hold_lem :
      IsLock l
      → (answer : Bool) × (lock_do_i_hold P lock s ≡ ok (answer, s))
        × (answer ≡ true → owner l ≡ some cur)
        × (owner l ≡ some cur → answer ≡ true)
  lock_do_i_hold_lem k = (
    same_pointer l.holder (some cur) && is_one l.held,
    hold_result,
    (owns_lem l.holder l.held cur k.flag).0,
    (owns_lem l.holder l.held cur k.flag).1,
  )
