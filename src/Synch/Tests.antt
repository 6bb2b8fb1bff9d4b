-- ===== src/Synch/Tests.antt =====
-- What the theorems about semaphores and locks say of the system of Thread/Example, in which thread
-- 3 sleeps on the semaphore at 70 or on the lock at 70.
use windborne.Base.{
  ◌+◌, ap, ◌≡◌, refl, inr, ◌⊎◌, true, [], ◌∷◌, none, some, ok, arith, Bool, panic, assertion,
  if◌then◌else◌, ◌>>=◌, ◌≢◌, ℕ, ◌<◌, subst, inl, Outcome, count, count-cons, count-nil,
}
use mathlib.Core.Option.{some-injective}
use windborne.Base.Int.{pos, ◌≤ℤ◌}
use windborne.Spl.{splx, splhigh, spl0}
use windborne.Thread.Resuming.{sleep_address}
use windborne.Thread.Switch.{
  thread_sleep, mi_switch, stash, md_switch, resume, mi_threadstart, activate,
}
use windborne.Synch.Mutex.{Move}
use windborne.Synch.Waiting.{Waits, Sound, owner_of}
use windborne.Synch.Steps.{probes, acquires, posts, Reach, here, next}
use windborne.Synch.Runs.{taken, given}
use windborne.Synch.Conservation.{semaphore_conservation}
use windborne.Synch.Progress.{no_lost_wakeup, others_keep_lock, locks_are_mutexes}
use windborne.Platform.Bounded.{bounded, bounded-Laws}
use windborne.Thread.Invariant.{Runs}
use windborne.Thread.Wakeup.{woken}
use windborne.Thread.Scheduler.{
  thread_hassleepers, thread_wakeup, wakeup_loop, make_runnable, scheduler, scheduler_loop,
}
use windborne.Thread.Sleepers.{has_elements, thread_hassleepers_lem}
use windborne.Thread.Waking.{thread_wakeup-Inv}
use windborne.Thread.Example.{
  three, three-Inv, open_cpu, closed_cpu, open-IsConsistent, closed-IsConsistent, sleeper,
}
use windborne.Synch.State.{Semaphore, Lock, Synch, outside, put}
use windborne.Synch.Semaphores.{
  proberen, proberen_loop, proberen_done, verhogen, sem_destroy, raise, lower,
}
use windborne.Synch.Locks.{acquire_loop, lock_acquire, lock_release, lock_do_i_hold}
use windborne.Synch.Counting.{Probes, Posted, proberen_lem, verhogen_lem}
use windborne.Synch.Ownership.{owner, IsLock, Acquires, lock_acquire_lem, lock_do_i_hold_lem}
use windborne.Synch.Releasing.{Released, lock_release_lem}
use windborne.Synch.Lifetimes.{sem_destroy_lem}
use windborne.Synch.Pairing.{proberen-verhogen}

abbrev empty_sem : Semaphore
empty_sem = record { name = "sem"; count = pos 0 }

abbrev my_lock : Lock
my_lock = record { name = "lock"; holder = some 1; held = pos 1 }

abbrev objects : Synch bounded
objects = record {
  sys = three open_cpu;
  sems = λ p. some empty_sem;
  locks = λ p. some my_lock;
  cvs = λ p. none;
  resting = λ p. outside;
}

my_lock-IsLock : IsLock my_lock
my_lock-IsLock = record { flag = inr refl; known = λ e k. cc }

proberen_lem_example :
    Probes bounded-Laws 1
      (70 ∷ [])
      70
      empty_sem
      objects
      refl
      (proberen bounded (70 ∷ []) 70 objects)
proberen_lem_example =
    proberen_lem bounded-Laws 1 (70 ∷ []) 70 empty_sem objects refl
      (three-Inv open_cpu open-IsConsistent) refl (omega arith)

verhogen_lem_example : Posted bounded-Laws 1 70 empty_sem objects (verhogen bounded 70 objects)
verhogen_lem_example =
    verhogen_lem bounded-Laws 1 70 empty_sem objects refl (three-Inv open_cpu open-IsConsistent)
      (omega arith) (omega arith)

proberen-verhogen_example :
    (s' : Synch bounded) × ((verhogen bounded 70 objects >>= proberen bounded [] 70) ≡ ok s')
    × (s'.sems 70 ≡ some empty_sem)
    × (s'.sys.curthread ≡ some 1)
    × (s'.sys.cpu ≡ open_cpu)
proberen-verhogen_example =
    proberen-verhogen bounded-Laws 1 70 empty_sem objects [] refl
      (three-Inv open_cpu open-IsConsistent) refl (omega arith) (omega arith)

lock_acquire_lem_example :
    Acquires bounded-Laws 1 [] 70 my_lock objects refl
      (three-Inv open_cpu open-IsConsistent)
      (lock_acquire bounded [] 70 objects)
lock_acquire_lem_example =
    lock_acquire_lem bounded-Laws 1 [] 70 my_lock objects refl
      (three-Inv open_cpu open-IsConsistent) refl my_lock-IsLock

lock_do_i_hold_lem_example :
    (answer : Bool) × (lock_do_i_hold bounded 70 objects ≡ ok (answer, objects))
    × (answer ≡ true → owner my_lock ≡ some 1)
    × (owner my_lock ≡ some 1 → answer ≡ true)
lock_do_i_hold_lem_example =
    lock_do_i_hold_lem bounded-Laws 1 [] 70 my_lock objects refl
      (three-Inv open_cpu open-IsConsistent) my_lock-IsLock

lock_release_lem_example :
    ((owner my_lock ≡ some 1)
      × Released bounded-Laws 1 70 my_lock objects refl
          (three-Inv open_cpu open-IsConsistent)
          (lock_release bounded 70 objects))
    ⊎ ((owner my_lock ≢ some 1) × (lock_release bounded 70 objects ≡ ok objects))
lock_release_lem_example =
    lock_release_lem bounded-Laws 1 70 my_lock objects refl (three-Inv open_cpu open-IsConsistent)
      my_lock-IsLock

sem_destroy_lem_example : sem_destroy bounded 70 objects ≡ (
    if has_elements (woken (three open_cpu).heap 70 (3 ∷ []))
    then panic assertion
    else ok (record objects { sems = put objects.sems 70 none }))
sem_destroy_lem_example =
    sem_destroy_lem bounded-Laws 1 70 empty_sem objects refl (three-Inv open_cpu open-IsConsistent)

thread_hassleepers_lem_example :
    thread_hassleepers bounded 70 (three closed_cpu)
    ≡ ok (has_elements (woken (three closed_cpu).heap 70 (3 ∷ [])))
thread_hassleepers_lem_example =
    thread_hassleepers_lem bounded-Laws 70 (three closed_cpu) refl ((sleeper, refl), tt)

thread_wakeup-Inv_example : Runs 1 (thread_wakeup bounded 70 (three closed_cpu))
thread_wakeup-Inv_example =
    thread_wakeup-Inv bounded-Laws 1 70 (three closed_cpu)
      (three-Inv closed_cpu closed-IsConsistent) refl

objects-Sound : Sound 1 objects
objects-Sound = record {
  threads = three-Inv open_cpu open-IsConsistent;
  counts =
      λ a k e. subst (λ (x : Semaphore). pos 0 ≤ℤ x.count) (some-injective _ _ e) (omega arith);
  flags = λ a l e. subst IsLock (some-injective _ _ e) my_lock-IsLock;
  levels = λ p. tt;
  asleep = λ p c.
      let e : 3 ≡ p = ground (arith, c, count-cons p 3 [], count-nil p) in
      subst (λ x. Waits objects.sems objects.locks (sleep_address ((three open_cpu).heap x))) e
        (70, refl, inl (empty_sem, refl, refl));
}

abbrev get_ok : Outcome (Synch bounded) → Synch bounded
get_ok (ok s) = s
get_ok o = objects

-- Thread 1 asks for the lock at 80 a second time, and thread 2 starts.
abbrev blocked : Synch bounded
blocked = get_ok (lock_acquire bounded [] 80 objects)

blocked_lem : lock_acquire bounded [] 80 objects ≡ ok blocked
unfolding lock_acquire acquire_loop raise thread_sleep mi_switch stash scheduler scheduler_loop
    md_switch resume mi_threadstart activate spl0 splx splhigh
blocked_lem = refl

blocked_sleepers : (blocked.sys.sleepers).held ≡ 3 ∷ 1 ∷ []
unfolding lock_acquire acquire_loop raise thread_sleep mi_switch stash scheduler scheduler_loop
    md_switch resume mi_threadstart activate spl0 splx splhigh
blocked_sleepers = refl

blocked_asleep : 0 < count 1 (blocked.sys.sleepers).held
blocked_asleep =
    omega (arith, ap (count 1) blocked_sleepers, count-cons 1 3 (1 ∷ []), count-cons 1 1 [])

no_lost_wakeup_example :
    (a : ℕ) × (sleep_address (blocked.sys.heap 1) ≡ some a)
    × (((k : Semaphore) × (blocked.sems a ≡ some k) × (k.count ≡ pos 0))
        ⊎ ((l : Lock) × (blocked.locks a ≡ some l) × (l.held ≡ pos 1)))
no_lost_wakeup_example =
    no_lost_wakeup bounded-Laws objects blocked (1, objects-Sound)
      (next here (acquires [] 80 (1, refl, refl) blocked_lem)) 1 blocked_asleep

abbrev posted : Synch bounded
posted = get_ok (verhogen bounded 70 blocked)

posted_lem : verhogen bounded 70 blocked ≡ ok posted
unfolding verhogen thread_wakeup wakeup_loop make_runnable lower lock_acquire acquire_loop raise
    thread_sleep mi_switch stash scheduler scheduler_loop md_switch resume mi_threadstart activate
    spl0 splx splhigh
posted_lem = refl

others_keep_lock_example : posted.locks 80 ≡ some my_lock
unfolding lock_acquire acquire_loop raise thread_sleep mi_switch stash scheduler scheduler_loop
    md_switch resume mi_threadstart activate spl0 splx splhigh
others_keep_lock_example =
    others_keep_lock bounded-Laws objects blocked posted (1, objects-Sound)
      (next here (acquires [] 80 (1, refl, refl) blocked_lem)) (posts 70 (2, refl, refl) posted_lem)
      80 my_lock 1 refl refl (λ e. cc (some-injective 2 1 e))

locks_are_mutexes_example : Move 2 (some 1) (owner_of (posted.locks 80))
unfolding lock_acquire acquire_loop raise thread_sleep mi_switch stash scheduler scheduler_loop
    md_switch resume mi_threadstart activate spl0 splx splhigh
locks_are_mutexes_example =
    locks_are_mutexes bounded-Laws objects blocked posted (1, objects-Sound)
      (next here (acquires [] 80 (1, refl, refl) blocked_lem)) (posts 70 (2, refl, refl) posted_lem)
      2 refl 80

-- Thread 2 waits for what it has posted.
abbrev probed : Synch bounded
probed = get_ok (proberen bounded [] 70 posted)

probed_lem : proberen bounded [] 70 posted ≡ ok probed
unfolding proberen proberen_loop proberen_done verhogen thread_wakeup wakeup_loop make_runnable
    lower lock_acquire acquire_loop raise thread_sleep mi_switch stash scheduler scheduler_loop
    md_switch resume mi_threadstart activate spl0 splx splhigh
probed_lem = refl

abbrev three_calls : Reach objects probed
unfolding proberen proberen_loop proberen_done verhogen thread_wakeup wakeup_loop make_runnable
    lower lock_acquire acquire_loop raise thread_sleep mi_switch stash scheduler scheduler_loop
    md_switch resume mi_threadstart activate spl0 splx splhigh
three_calls =
    next
      (next (next here (acquires [] 80 (1, refl, refl) blocked_lem))
        (posts 70 (2, refl, refl) posted_lem))
      (probes [] 70 (2, refl, refl) probed_lem)

one_taken : taken 70 three_calls ≡ 1
unfolding proberen proberen_loop proberen_done verhogen thread_wakeup wakeup_loop make_runnable
    lower lock_acquire acquire_loop raise thread_sleep mi_switch stash scheduler scheduler_loop
    md_switch resume mi_threadstart activate spl0 splx splhigh
one_taken = refl

semaphore_conservation_example :
    (k : Semaphore) × (c0 : ℕ) × (c : ℕ) × (probed.sems 70 ≡ some k)
    × (pos 0 ≡ pos c0)
    × (k.count ≡ pos c)
    × (c + taken 70 three_calls ≡ c0 + given 70 three_calls)
unfolding proberen proberen_loop proberen_done verhogen thread_wakeup wakeup_loop make_runnable
    lower lock_acquire acquire_loop raise thread_sleep mi_switch stash scheduler scheduler_loop
    md_switch resume mi_threadstart activate spl0 splx splhigh
semaphore_conservation_example =
    semaphore_conservation bounded-Laws 70 objects probed three_calls (1, objects-Sound) empty_sem
      refl refl
