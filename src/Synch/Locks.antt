-- ===== src/Synch/Locks.antt =====
-- The locks of Projects/OS161/kern/thread/synch.c, and its condition variables, whose three
-- operations do nothing.
use windborne.Base.{
  ℕ, ◌==◌, ◌&&◌, not, Bool, true, false, List, Option, none, some, String, Outcome, ok, check,
  deref, ◌>>=◌, ◌>>◌, if◌then◌else◌,
}
use windborne.Base.Int.{ℤ, pos, negsuc}
use windborne.Spl.{is_zero}
use windborne.Platform.{Platform}
use windborne.Thread.Scheduler.{thread_wakeup}
use windborne.Thread.Switch.{thread_sleep}
use windborne.Synch.State.{Lock, Synch, outside, in_acquire, put}
use windborne.Synch.Semaphores.{raise, lower}

abbrev pub is_one : ℤ → Bool
is_one (pos n) = n == 1
is_one (negsuc n) = false

-- `lock->holder == curthread`
abbrev pub same_pointer : Option ℕ → Option ℕ → Bool
same_pointer none none = true
same_pointer none (some q) = false
same_pointer (some p) none = false
same_pointer (some p) (some q) = p == q

module _ (P : Platform) where
  unfoldable pub lock_create : Option ℕ → Bool → String → Synch P → Outcome (Option ℕ × Synch P)
  lock_create lock_at has_name name s = elim lock_at [
    | none ↦ ok (none, s)
    | some lock ↦
        if has_name
        then ok (
          some lock,
          record s {
            locks = put s.locks lock (some (record { name = name; holder = none; held = pos 0 }));
          },
        )
        else ok (none, s)
  ]

  unfoldable pub lock_destroy : ℕ → Synch P → Outcome (Synch P)
  lock_destroy lock s = do
    l ← deref (s.locks lock)
    check (is_zero l.held)
    ok (record s { locks = put s.locks lock none })

  -- The end of `lock_acquire`, behind its loop.
  unfoldable pub acquire_done : ℕ → ℤ → Lock → Synch P → Outcome (Synch P)
  unfolding lower
  acquire_done lock spl l s = do
    cur ← deref s.sys.curthread
    ok (record s {
      sys = lower P spl s.sys;
      locks = put s.locks lock (some (record l { held = pos 1; holder = s.sys.curthread }));
      resting = put s.resting cur outside;
    })

  unfoldable pub acquire_loop : List ℕ → ℕ → ℤ → Synch P → Outcome (Synch P)
  unfolding thread_sleep acquire_done
  acquire_loop wakes lock spl s = do
    l ← deref (s.locks lock)
    if is_zero l.held
        then acquire_done lock spl l s
        else deref s.sys.curthread >>= λ cur. thread_sleep P wakes lock s.sys >>= λ t.
            ok (record s { sys = t; resting = put s.resting cur (in_acquire lock spl) })

  unfoldable pub lock_acquire : List ℕ → ℕ → Synch P → Outcome (Synch P)
  unfolding raise acquire_loop
  lock_acquire wakes lock s = do
    cur ← deref s.sys.curthread
    let (spl, s1) = raise P s.sys
    acquire_loop wakes lock spl (record s { sys = s1 })

  unfoldable pub lock_do_i_hold : ℕ → Synch P → Outcome (Bool × Synch P)
  unfolding raise lower
  lock_do_i_hold lock s = do
    check (not (same_pointer s.sys.curthread none))
    let (spl, s1) = raise P s.sys
    l ← deref (s.locks lock)
    ok (same_pointer l.holder s1.curthread && is_one l.held, record s { sys = lower P spl s1 })

  -- The body of the `if` of `lock_release`.
  unfoldable pub release_held : ℕ → Lock → Synch P → Outcome (Synch P)
  unfolding thread_wakeup
  release_held lock l s = do
    s2 ← thread_wakeup P lock s.sys
    ok (record s { sys = s2; locks = put s.locks lock (some (record l { held = pos 0 })) })

  -- The second operand of `&&` is computed only where the first is true.
  unfoldable pub release_test : ℕ → Lock → Synch P → Outcome (Synch P)
  unfolding lock_do_i_hold release_held
  release_test lock l s = elim (is_one l.held) [
    | false ↦ ok s
    | true ↦
        lock_do_i_hold lock s >>= λ r. elim r.0 [ false ↦ ok r.1 | true ↦ release_held lock l r.1 ]
  ]

  unfoldable pub lock_release : ℕ → Synch P → Outcome (Synch P)
  unfolding raise lower release_test
  lock_release lock s = do
    check (not (same_pointer s.sys.curthread none))
    let (spl, s1) = raise P s.sys
    l ← deref (s.locks lock)
    s2 ← release_test lock l (record s { sys = s1 })
    ok (record s2 { sys = lower P spl s2.sys })

  unfoldable pub cv_create : Option ℕ → Bool → String → Synch P → Outcome (Option ℕ × Synch P)
  cv_create cv_at has_name name s = elim cv_at [
    | none ↦ ok (none, s)
    | some cv ↦
        if has_name then ok (some cv, record s { cvs = put s.cvs cv (some name) }) else ok (none, s)
  ]

  unfoldable pub cv_destroy : ℕ → Synch P → Outcome (Synch P)
  cv_destroy cv s = do name ← deref (s.cvs cv); ok (record s { cvs = put s.cvs cv none })

  unfoldable pub cv_wait : ℕ → ℕ → Synch P → Outcome (Synch P)
  cv_wait cv lock s = ok s

  unfoldable pub cv_signal : ℕ → ℕ → Synch P → Outcome (Synch P)
  cv_signal cv lock s = ok s

  unfoldable pub cv_broadcast : ℕ → ℕ → Synch P → Outcome (Synch P)
  cv_broadcast cv lock s = ok s
