-- ===== src/Synch/Lifetimes.antt =====
-- Creation and destruction of semaphores and locks in Projects/OS161/kern/thread/synch.c.
use windborne.Base.{
  ℕ, ◌≡◌, refl, Bool, true, false, none, some, ok, panic, assertion, if◌then◌else◌,
}
use windborne.Platform.{Platform, Laws}
use windborne.Thread.Scheduler.{thread_hassleepers}
use windborne.Thread.Wakeup.{woken}
use windborne.Thread.Invariant.{Inv}
use windborne.Thread.Operations.{at_high, high_raised}
use windborne.Thread.Sleepers.{has_elements, thread_hassleepers_lem}
use windborne.Thread.Waking.{Inv_lem}
use windborne.Synch.State.{Semaphore, Synch, put}
use windborne.Synch.Semaphores.{sem_destroy}
use windborne.Synch.Counting.{lower-raise}

module _ {P : Platform} (L : Laws P) (cur sem : ℕ) (k : Semaphore) (s : Synch P)
    (here : s.sems sem ≡ some k) (v : Inv P cur s.sys) where
  destroy_steps :
      (b : Bool)
      → thread_hassleepers P sem (at_high L cur s.sys) ≡ ok b
      → sem_destroy P sem s
        ≡ (if b then panic assertion else ok (record s { sems = put s.sems sem none }))
  unfolding sem_destroy
  destroy_steps true e = rw (sem_destroy, e) refl
  destroy_steps false e = rw (sem_destroy, e, here, lower-raise L cur s.sys v) refl

  -- From the invariant, `sem_destroy` panics where a thread sleeps on the semaphore; otherwise it
  -- frees it, and threads, lists and interrupt level stay.
  pub sem_destroy_lem : sem_destroy P sem s ≡ (
      if has_elements (woken s.sys.heap sem (P.items s.sys.sleepers))
      then panic assertion
      else ok (record s { sems = put s.sems sem none }))
  sem_destroy_lem = destroy_steps (has_elements (woken s.sys.heap sem (P.items s.sys.sleepers))) (
      thread_hassleepers_lem L sem (at_high L cur s.sys)
        (high_raised P.spl_high s.sys.cpu L.spl_high_pos).0 (Inv_lem L cur sem s.sys v).0)
