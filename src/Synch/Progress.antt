-- ===== src/Synch/Progress.antt =====
-- No wake-up is lost between the semaphores and locks of Projects/OS161/kern/thread/synch.c and the
-- sleepers of kern/thread/thread.c.
use windborne.Base.{
  ℕ, ◌<◌, ◌≡◌, ◌≢◌, refl, sym, ap, ◌∙◌, subst, ◌⊎◌, inl, inr, Option, none, some, String, Outcome,
  ok, arith, ok_inj, count,
}
use windborne.Base.Int.{pos}
use windborne.Platform.{Platform, Laws}
use windborne.Thread.State.{Thread, Sys}
use windborne.Thread.Switch.{thread_yield, thread_exit}
use windborne.Thread.Fork.{Memory, thread_fork}
use windborne.Thread.Resuming.{sleep_address, update_other}
use windborne.Thread.Parking.{FewerAsleep, Goes}
use windborne.Thread.Operations.{thread_yield-Goes}
use windborne.Thread.Exit.{thread_exit-Goes}
use windborne.Thread.ForkBranches.{Refused, Forked}
use windborne.Thread.Creation.{IsFresh, thread_fork_lem}
use windborne.Thread.Population.{Forked-Inv, Refused-Inv}
use windborne.Synch.State.{Semaphore, Lock, Synch}
use windborne.Synch.Steps.{
  Step, probes, posts, acquires, releases, continues, yields, exits, forks, creates_sem,
  creates_lock, destroys_sem, destroys_lock, Reach, here, next,
}
use windborne.Synch.Mutex.{Move}
use windborne.Synch.Waiting.{Sound, IsSound, Leads, owner_of, FewerAsleep-Sound}
use windborne.Synch.Ownership.{owner}
use windborne.Synch.Sleeping.{proberen-Leads}
use windborne.Synch.Acquiring.{lock_acquire-Leads, go_on-Leads}
use windborne.Synch.Waking.{verhogen-Leads, lock_release-Leads}
use windborne.Synch.Creating.{
  sem_create-Leads, lock_create-Leads, sem_destroy-Leads, lock_destroy-Leads,
}

module _ {P : Platform} (L : Laws P) (cur : ℕ) (s : Synch P) (d : Sound cur s) where
  -- A call into thread.c that lets nobody fall asleep.
  Goes-Leads :
      (t : Sys P) (o : Outcome (Sys P)) → Goes s.sys o → o ≡ ok t → Leads s (record s { sys = t })
  Goes-Leads t o (inl idles) e = cc (e, idles)
  Goes-Leads t o (inr (nu, t', result, v, fewer)) e =
      subst (λ x. Leads s (record s { sys = x })) (ok_inj (sym result ∙ e))
        ((nu, FewerAsleep-Sound cur nu s t' d v fewer), λ b m p h o n. h, λ me r b. inl refl)

  -- A thread that is new does not sleep.
  Forked-FewerAsleep :
      (p : ℕ) (u : Thread) (t : Sys P)
      → s.sys.heap p ≡ none
      → Forked s.sys p u t
      → FewerAsleep s.sys t
  Forked-FewerAsleep p u t fresh f q c =
      let there = subst (λ l. 0 < count q l) f.asleep c in
      let (w, live, _, _) = d.threads.parked q (omega (arith, there)) in
      (
        there,
        ap (λ h. sleep_address (h q)) f.heap
            ∙ ap sleep_address (
                update_other s.sys.heap p (some u) q
                  (λ same. cc (ap s.sys.heap same, fresh, live))),
      )

  Refused-FewerAsleep : (t : Sys P) → Refused s.sys t → FewerAsleep s.sys t
  Refused-FewerAsleep t f q c = (subst (λ l. 0 < count q l) f.asleep c, ap sleep_address (f.heap q))

  forks-Leads :
      (m : Memory) (name : String) (data1 data2 func code : ℕ) (ret : Option ℕ) (t : Sys P)
      → IsFresh m s.sys
      → thread_fork P m name data1 data2 func s.sys ≡ ok (code, ret, t)
      → Leads s (record s { sys = t })
  forks-Leads m name data1 data2 func code ret t k e =
      let (me, live, _) = d.threads.current in
      let (_, _, t', result, end) =
        thread_fork_lem L m name data1 data2 func s.sys cur me live d.threads k in
      subst (λ x. Leads s (record s { sys = x })) (ap (λ r. r.2) (ok_inj (sym result ∙ e)))
        (
          (
            cur,
            elim end [
              | inl (p, at, _, _, f) ↦
                  FewerAsleep-Sound cur cur s t' d
                    (Forked-Inv d.threads p _ (k.fresh p at) t' refl tt f)
                    (Forked-FewerAsleep p _ t' (k.fresh p at) f)
              | inr (_, _, f) ↦
                  FewerAsleep-Sound cur cur s t' d (Refused-Inv d.threads t' f)
                    (Refused-FewerAsleep t' f)
            ],
          ),
          λ b m p h o n. h,
          λ me r b. inl refl,
        )

  Step-Leads : (s' : Synch P) → Step s s' → Leads s s'
  Step-Leads s' (probes wakes sem _ e) = proberen-Leads L cur wakes sem s s' d e
  Step-Leads s' (posts sem _ e) = verhogen-Leads L cur sem s s' d e
  Step-Leads s' (acquires wakes at _ e) = lock_acquire-Leads L cur wakes at s s' d e
  Step-Leads s' (releases at _ e) = lock_release-Leads L cur at s s' d e
  Step-Leads s' (continues wakes e) = go_on-Leads L cur wakes s s' d e
  Step-Leads s' (yields wakes t _ e same) =
      subst (Leads s) (sym same) (
        Goes-Leads t (thread_yield P wakes s.sys) (thread_yield-Goes L cur s.sys wakes d.threads) e)
  Step-Leads s' (exits wakes t _ room e same) = subst (Leads s) (sym same) (
      Goes-Leads t (thread_exit P wakes s.sys) (thread_exit-Goes L cur wakes s.sys room d.threads)
        e)
  Step-Leads s' (forks m name data1 data2 func code ret t _ k e same) =
      subst (Leads s) (sym same) (forks-Leads m name data1 data2 func code ret t k e)
  Step-Leads s' (creates_sem at b name n ret _ fresh e) =
      sem_create-Leads L cur at b name n ret s s' d fresh e
  Step-Leads s' (creates_lock at b name ret _ fresh e) =
      lock_create-Leads L cur at b name ret s s' d fresh e
  Step-Leads s' (destroys_sem sem _ e) = sem_destroy-Leads L cur sem s s' d e
  Step-Leads s' (destroys_lock at _ e) = lock_destroy-Leads L cur at s s' d e

pub Reach-IsSound :
    {P : Platform} (L : Laws P) (s s' : Synch P) → Reach s s' → IsSound s → IsSound s'
Reach-IsSound L s s' here d = d
Reach-IsSound L s s' (next {t} way step) d =
    let (cur, k) = Reach-IsSound L s t way d in (Step-Leads L cur t k s' step).0

-- In every state that the calls of all threads reach, in any order, from one that is sound: a
-- thread among the sleepers sleeps on a semaphore that is there and whose count is 0, or on a lock
-- that is there and held. So no thread sleeps on past the `V` or `lock_release` it waits for.
-- Sound is a state with the invariant of the thread system in which no count is negative, a lock
-- is free or has a holder, and the threads that sleep do so in that way.
pub no_lost_wakeup :
    {P : Platform} (L : Laws P) (s0 s : Synch P)
    → IsSound s0
    → Reach s0 s
    → (p : ℕ) → 0 < count p (P.items s.sys.sleepers)
    → (a : ℕ) × (sleep_address (s.sys.heap p) ≡ some a)
      × (((k : Semaphore) × (s.sems a ≡ some k) × (k.count ≡ pos 0))
          ⊎ ((l : Lock) × (s.locks a ≡ some l) × (l.held ≡ pos 1)))
no_lost_wakeup L s0 s start way p c = let (cur, d) = Reach-IsSound L s0 s way start in d.asleep p c

-- In every state that the calls of all threads reach, in any order, from one that is sound: a step
-- of one thread, whatever it calls, leaves each lock that another thread holds as it is, with that
-- holder.
pub others_keep_lock :
    {P : Platform} (L : Laws P) (s0 s s' : Synch P)
    → IsSound s0
    → Reach s0 s
    → Step s s'
    → (at : ℕ) (l : Lock) (p : ℕ) → s.locks at ≡ some l
    → owner l ≡ some p
    → s.sys.curthread ≢ some p
    → s'.locks at ≡ some l
others_keep_lock L s0 s s' start way step =
    let (cur, d) = Reach-IsSound L s0 s way start in (Step-Leads L cur s d s' step).1

-- In every state that the calls of all threads reach, in any order, from one that is sound: a step
-- of the thread that runs, whatever it calls, does to each lock one of three things. It leaves the
-- owner, or it takes the lock, which then was free, or it gives the lock back, of which it then was
-- the owner. A lock that is not there counts as free.
pub locks_are_mutexes :
    {P : Platform} (L : Laws P) (s0 s s' : Synch P)
    → IsSound s0
    → Reach s0 s
    → Step s s'
    → (me : ℕ) → s.sys.curthread ≡ some me
    → (at : ℕ) → Move me (owner_of (s.locks at)) (owner_of (s'.locks at))
locks_are_mutexes L s0 s s' start way step =
    let (cur, d) = Reach-IsSound L s0 s way start in (Step-Leads L cur s d s' step).2
