-- ===== src/Thread/Tests.antt =====
-- What the theorems about the thread system say of the system of Thread/Example.
use windborne.Base.{
  zero, suc, ◌+◌, ◌<◌, ◌≢◌, get_elem?, none, idle, ℕ, ◌%◌, ◌≡◌, refl, ◌⊎◌, true, [], ◌∷◌, Option,
  some, ok, arith, count-nil, count-cons,
}
use windborne.Spl.{splx, splhigh, spl_raised}
use windborne.Spl.Nesting.{splx-splhigh}
use windborne.Thread.Choice.{Picked, scheduler_lem}
use windborne.Thread.Printing.{Ring, index, Iterates, print_run_queue}
use windborne.Thread.Printed.{lines_of, print_run_queue_lem}
use windborne.Thread.Turns.{take_turns, take_turns_lem}
use windborne.Thread.RoundRobin.{Rotates, thread_yield_round_robin}
use windborne.Thread.Scheduler.{scheduler}
use windborne.Platform.Bounded.{Store, bounded, bounded-Laws}
use windborne.Thread.State.{Thread, Sys, update}
use windborne.Thread.Fork.{Memory, new_thread, thread_fork, thread_bootstrap}
use windborne.Thread.Scheduler.{thread_wakeup}
use windborne.Thread.Wakeup.{Woken, woken, kept, thread_wakeup_lem}
use windborne.Thread.Switch.{thread_yield, thread_sleep, thread_exit, exorcise}
use windborne.Thread.Bootstrap.{thread_bootstrap-Inv}
use windborne.Thread.Reaping.{free_all, exorcise_lem}
use windborne.Thread.Invariant.{Inv, Settles}
use windborne.Thread.Operations.{thread_yield-Inv, thread_sleep-Inv}
use windborne.Thread.Exit.{thread_exit-Inv}
use windborne.Thread.Creation.{IsFresh, ForkEnds, child, thread_fork_lem}
use windborne.Thread.Population.{thread_fork-Inv}
use windborne.Thread.Example.{
  store, open_cpu, closed_cpu, runner, sleeper, three, three-Inv, ready, ready-Inv,
  open-IsConsistent, closed-IsConsistent,
}

splx-splhigh_example :
    let (s, inside) = splhigh 15 open_cpu in
    (spl_raised inside ≡ true) × (inside.status % 2 ≡ 0) × ((splx s inside).1 ≡ open_cpu)
splx-splhigh_example = splx-splhigh 15 open_cpu (omega arith) open-IsConsistent

thread_yield-Inv_example : Settles (thread_yield bounded (70 ∷ []) (three open_cpu))
thread_yield-Inv_example =
    thread_yield-Inv bounded-Laws 1 (three open_cpu) (70 ∷ [])
      (three-Inv open_cpu open-IsConsistent)

thread_sleep-Inv_example : Settles (thread_sleep bounded [] 70 (three closed_cpu))
thread_sleep-Inv_example =
    thread_sleep-Inv bounded-Laws 1 (three closed_cpu) [] 70 refl refl
      (three-Inv closed_cpu closed-IsConsistent)

thread_exit-Inv_example : Settles (thread_exit bounded [] (three open_cpu))
thread_exit-Inv_example =
    thread_exit-Inv bounded-Laws 1 [] (three open_cpu) (omega arith)
      (three-Inv open_cpu open-IsConsistent)

thread_wakeup_lem_example :
    Woken bounded
      (three closed_cpu)
      (kept (three closed_cpu).heap 70 (3 ∷ []))
      (woken (three closed_cpu).heap 70 (3 ∷ []))
      (thread_wakeup bounded 70 (three closed_cpu))
thread_wakeup_lem_example =
    thread_wakeup_lem bounded bounded-Laws 70 (three closed_cpu) refl ((sleeper, refl), tt)
      (omega arith)

-- Woken, the sleeper is behind the thread that was ready.
woken_last : woken (three closed_cpu).heap 70 (3 ∷ []) ≡ 3 ∷ []
unfolding woken
woken_last = refl

abbrev memory : Memory
memory = record { thread_at = some 4; has_name = true; has_table = true; stack_at = some 20480 }

memory-IsFresh : IsFresh memory (three open_cpu)
memory-IsFresh = record { fresh = λ p e. ground arith; table = refl }

thread_fork_lem_example :
    ForkEnds
      (three open_cpu)
      memory
      (child 4096 "new" (some 9) 20480 1 2 3)
      (thread_fork bounded memory "new" 1 2 3 (three open_cpu))
thread_fork_lem_example =
    thread_fork_lem bounded-Laws memory "new" 1 2 3 (three open_cpu) 1 runner refl
      (three-Inv open_cpu open-IsConsistent) memory-IsFresh

thread_fork-Inv_example :
    (code : ℕ) × (ret : Option ℕ) × (s' : Sys bounded) × (thread_fork bounded memory "new" 1 2 3
        (three open_cpu)
      ≡ ok (code, ret, s'))
    × Inv bounded 1 s'
thread_fork-Inv_example =
    thread_fork-Inv bounded-Laws memory "new" 1 2 3 1 (three open_cpu)
      (three-Inv open_cpu open-IsConsistent) memory-IsFresh

abbrev dead_thread : Thread
dead_thread = new_thread "dead"

-- Thread 1 runs, threads 5 and 6 have exited.
abbrev two_dead : Sys bounded
two_dead = record (three closed_cpu) {
  heap = update (update (three closed_cpu).heap 5 (some dead_thread)) 6 (some dead_thread);
  zombies = store (5 ∷ 6 ∷ []);
}

exorcise_lem_example :
    (z : Store) × (exorcise bounded two_dead
      ≡ ok (record two_dead { heap = free_all (5 ∷ 6 ∷ []) two_dead.heap; zombies = z }))
    × (z.held ≡ [])
exorcise_lem_example =
    exorcise_lem bounded bounded-Laws 1 two_dead refl refl
      (ground (arith, count-cons 1 5 (6 ∷ []), count-cons 1 6 [], count-nil 1))
      (λ p. ground (arith, count-cons p 5 (6 ∷ []), count-cons p 6 [], count-nil p))
      ((dead_thread, refl, refl, refl), ((dead_thread, refl, refl, refl), tt))

-- Thread 3 sleeps at 70, and an interrupt wakes it while the scheduler waits.
abbrev none_ready : Sys bounded
none_ready = record (three closed_cpu) { runqueue = store [] }

scheduler_lem_example :
    (scheduler bounded (70 ∷ []) none_ready ≡ idle)
    ⊎ Picked bounded-Laws none_ready (scheduler bounded (70 ∷ []) none_ready)
scheduler_lem_example =
    scheduler_lem bounded-Laws (70 ∷ []) none_ready refl closed-IsConsistent ((sleeper, refl), tt)
      (omega arith)

thread_yield_round_robin_example :
    Rotates bounded-Laws 1
      (three open_cpu)
      (70 ∷ [])
      (three-Inv open_cpu open-IsConsistent)
      2
      (1 ∷ [])
      refl
thread_yield_round_robin_example =
    thread_yield_round_robin bounded-Laws 1 (three open_cpu) (70 ∷ [])
      (three-Inv open_cpu open-IsConsistent) 2 (1 ∷ []) refl

-- Thread 2 yields in its turn.
take_turns_lem_example :
    (s' : Sys bounded) × (take_turns bounded ([] ∷ (70 ∷ []) ∷ []) (ready open_cpu) ≡ ok s')
    × Inv bounded 3 s'
    × (s'.runqueue.held ≡ 1 ∷ 2 ∷ [])
    × (s'.sleepers ≡ store [])
take_turns_lem_example =
    take_turns_lem bounded-Laws ([] ∷ (70 ∷ []) ∷ []) (2 ∷ []) 3 [] 1 (ready open_cpu)
      (ready-Inv open_cpu open-IsConsistent) refl refl

-- The state in which the kernel starts.
abbrev initial : Sys bounded
initial = record (three closed_cpu) {
  heap = λ p. none;
  curthread = none;
  runqueue = store [];
  numthreads = 0;
}

thread_bootstrap-Inv_example :
    (s' : Sys bounded) × (thread_bootstrap bounded
        (some (store []))
        (some (store []))
        memory
        initial
      ≡ ok (4, s'))
    × Inv bounded 4 s'
thread_bootstrap-Inv_example =
    thread_bootstrap-Inv memory (store []) (store []) initial 4 refl refl refl refl refl refl
      (omega arith) (omega arith) closed-IsConsistent

-- A ring with space for one element more than it holds.
abbrev ring : Ring bounded
ring = record {
  q_getstart = λ q. 1;
  q_getend = λ q. 0;
  q_getsize = λ q. 3;
  q_getguy = λ q i. i + 1;
}

-- Threads 2 and 3 stand at the indices 1 and 2.
ready-Iterates : Iterates bounded ring (ready open_cpu).runqueue
ready-Iterates = record {
  at_end = refl;
  before = λ n h e. position n h (λ i. i ≢ 0) (λ k. cc) (λ k. cc) e;
  guy = λ n h. at_index n h;
}
  where
    position :
        (n : ℕ)
        → n < 2
        → (Q : ℕ → Type 0) → Q 1
        → Q 2
        → Q (index bounded ring (ready open_cpu).runqueue n)
    position zero h Q a b = a
    position (suc zero) h Q a b = b
    position (suc (suc n)) h Q a b = absurd (omega arith)

    at_index :
        (n : ℕ)
        → n < 2
        → get_elem? (2 ∷ 3 ∷ []) n ≡ some (index bounded ring (ready open_cpu).runqueue n + 1)
    at_index zero h = refl
    at_index (suc zero) h = refl
    at_index (suc (suc n)) h = absurd (omega arith)

print_run_queue_lem_example :
    print_run_queue bounded ring 3 (ready open_cpu)
    ≡ ok (lines_of (ready open_cpu).heap 0 (2 ∷ 3 ∷ []), ready open_cpu)
print_run_queue_lem_example =
    print_run_queue_lem bounded-Laws ring 1 3 (ready open_cpu)
      (ready-Inv open_cpu open-IsConsistent) ready-Iterates (omega arith)
