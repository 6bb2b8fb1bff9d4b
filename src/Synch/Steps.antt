-- ===== src/Synch/Steps.antt =====
-- What threads do with the semaphores and locks of Projects/OS161/kern/thread/synch.c, in any order.
-- A step is one call of the thread that runs, up to where some thread runs outside of thread.c
-- again; a thread that has slept in a loop of synch.c goes on in it before it does anything else.
use windborne.Base.{ℕ, ◌<◌, ◌≡◌, Bool, List, Option, none, some, String, ok, length}
use windborne.Base.Int.{ℤ}
use windborne.Platform.{Platform}
use windborne.Thread.State.{Sys}
use windborne.Thread.Switch.{thread_yield, thread_exit}
use windborne.Thread.Fork.{Memory, thread_fork}
use windborne.Thread.Creation.{IsFresh}
use windborne.Synch.State.{Synch, outside}
use windborne.Synch.Semaphores.{sem_create, sem_destroy, proberen, verhogen}
use windborne.Synch.Locks.{lock_create, lock_destroy, lock_acquire, lock_release}
use windborne.Synch.Resumption.{go_on}

-- The thread that runs is not in a loop of synch.c.
abbrev pub IsOutside : {P : Platform} → Synch P → Type 0
IsOutside s = (cur : ℕ) × (s.sys.curthread ≡ some cur) × (s.resting cur ≡ outside)

pub data Step {P : Platform} (s s' : Synch P) : Type 0 where
  probes : (wakes : List ℕ) (sem : ℕ) → IsOutside s → proberen P wakes sem s ≡ ok s' → Step s s'
  posts : (sem : ℕ) → IsOutside s → verhogen P sem s ≡ ok s' → Step s s'
  acquires : (wakes : List ℕ) (at : ℕ) → IsOutside s → lock_acquire P wakes at s ≡ ok s' → Step s s'
  releases : (at : ℕ) → IsOutside s → lock_release P at s ≡ ok s' → Step s s'
  continues : (wakes : List ℕ) → go_on P wakes s ≡ ok s' → Step s s'
  -- The thread yields, or the clock makes it yield.
  yields :
      (wakes : List ℕ) (t : Sys P)
      → IsOutside s
      → thread_yield P wakes s.sys ≡ ok t
      → s' ≡ record s { sys = t }
      → Step s s'
  exits :
      (wakes : List ℕ) (t : Sys P)
      → IsOutside s
      → length (P.items s.sys.zombies) < P.room s.sys.zombies
      → thread_exit P wakes s.sys ≡ ok t
      → s' ≡ record s { sys = t }
      → Step s s'
  forks :
      (m : Memory) (name : String) (data1 data2 func code : ℕ) (ret : Option ℕ) (t : Sys P)
      → IsOutside s
      → IsFresh m s.sys
      → thread_fork P m name data1 data2 func s.sys ≡ ok (code, ret, t)
      → s' ≡ record s { sys = t }
      → Step s s'
  -- The allocator returns memory that is not in use.
  creates_sem :
      (at : Option ℕ) (has_name : Bool) (name : String) (initial_count : ℤ) (ret : Option ℕ)
      → IsOutside s
      → ((p : ℕ) → at ≡ some p → s.sems p ≡ none)
      → sem_create P at has_name name initial_count s ≡ ok (ret, s')
      → Step s s'
  creates_lock :
      (at : Option ℕ) (has_name : Bool) (name : String) (ret : Option ℕ)
      → IsOutside s
      → ((p : ℕ) → at ≡ some p → s.locks p ≡ none)
      → lock_create P at has_name name s ≡ ok (ret, s')
      → Step s s'
  destroys_sem : (sem : ℕ) → IsOutside s → sem_destroy P sem s ≡ ok s' → Step s s'
  destroys_lock : (at : ℕ) → IsOutside s → lock_destroy P at s ≡ ok s' → Step s s'

pub data Reach {P : Platform} (s : Synch P) : Synch P → Type 0 where
  here : Reach s s
  next : {t u : Synch P} → Reach s t → Step t u → Reach s u
