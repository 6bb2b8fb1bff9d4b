-- ===== src/Thread/Scheduler.antt =====
-- Projects/OS161/kern/thread/scheduler.c, and `thread_wakeup` and `thread_hassleepers` of thread.c.
use windborne.Base.{
  ℕ, zero, suc, ◌+◌, ◌==◌, ltb, length, Bool, true, false, List, [], ◌∷◌, none, some, Outcome, ok,
  panic, idle, out_of_fuel, panicked, check, deref, ◌>>=◌, ◌>>◌,
}
use windborne.Spl.{spl_raised, cpu_idle}
use windborne.Platform.{Platform}
use windborne.Thread.State.{Sys, sleeps_at, dropping}

module _ (P : Platform) where
  -- The run queue is extended by a failed call as far as `q_addtail` says.
  unfoldable pub make_runnable : ℕ → Sys P → Outcome (ℕ × Sys P)
  make_runnable t s = do
    check (spl_raised s.cpu)
    let (code, q) = P.q_addtail s.runqueue t
    ok (code, record s { runqueue = q })

  -- The loop of `thread_wakeup`, from index `i`. Behind a removal the same index is looked at again.
  unfoldable pub wakeup_loop : ℕ → ℕ → ℕ → Sys P → Outcome (Sys P)
  unfolding make_runnable
  wakeup_loop zero i addr s = out_of_fuel
  wakeup_loop (suc fuel) i addr s = elim (ltb i (P.array_getnum s.sleepers)) [
    | false ↦ ok s
    | true ↦ deref (s.heap (P.array_getguy s.sleepers i)) >>= λ t.
        elim (sleeps_at addr t.t_sleepaddr) [
          | false ↦ wakeup_loop fuel (i + 1) addr s
          | true ↦
              make_runnable (P.array_getguy s.sleepers i)
                (record s { sleepers = P.array_remove s.sleepers i })
              >>= λ r. check (r.0 == 0) >> wakeup_loop fuel i addr r.1
        ]
  ]

  -- Each round passes one of the elements or removes it.
  unfoldable pub thread_wakeup : ℕ → Sys P → Outcome (Sys P)
  unfolding wakeup_loop
  thread_wakeup addr s = do
    check (spl_raised s.cpu)
    wakeup_loop (P.array_getnum s.sleepers + 1) 0 addr s

  -- The rounds that are left, and the index.
  unfoldable pub hassleepers_loop : ℕ → ℕ → ℕ → Sys P → Outcome Bool
  hassleepers_loop zero i addr s = ok false
  hassleepers_loop (suc n) i addr s = deref (s.heap (P.array_getguy s.sleepers i)) >>= λ t.
      elim (sleeps_at addr t.t_sleepaddr) [
        | true ↦ ok true
        | false ↦ hassleepers_loop n (i + 1) addr s
      ]

  unfoldable pub thread_hassleepers : ℕ → Sys P → Outcome Bool
  unfolding hassleepers_loop
  thread_hassleepers addr s = do
    check (spl_raised s.cpu)
    hassleepers_loop (P.array_getnum s.sleepers) 0 addr s

  -- `scheduler()`. While nothing is ready the processor idles. An interrupt that ends one idle round
  -- reaches the thread system as a `thread_wakeup` of some address: `wakes` lists these addresses.
  unfoldable pub scheduler_loop : List ℕ → Sys P → Outcome (ℕ × Sys P)
  unfolding thread_wakeup cpu_idle
  scheduler_loop [] s = elim (P.q_empty s.runqueue) [
    | true ↦ idle
    | false ↦ elim (P.q_remhead s.runqueue) [
      | none ↦ panic panicked
      | some (t, q) ↦ ok (t, record s { runqueue = q })
    ]
  ]
  scheduler_loop (addr ∷ wakes) s = elim (P.q_empty s.runqueue) [
    | true ↦
        cpu_idle s.cpu >>= λ c. thread_wakeup addr (record s { cpu = c }) >>= scheduler_loop wakes
    | false ↦ elim (P.q_remhead s.runqueue) [
      | none ↦ panic panicked
      | some (t, q) ↦ ok (t, record s { runqueue = q })
    ]
  ]

  unfoldable pub scheduler : List ℕ → Sys P → Outcome (ℕ × Sys P)
  unfolding scheduler_loop
  scheduler wakes s = do check (spl_raised s.cpu); scheduler_loop wakes s

  -- The rounds are bounded by the length that `q_remhead` shortens.
  unfoldable pub scheduler_killall_loop : ℕ → Sys P → Outcome (Sys P)
  scheduler_killall_loop zero s = elim (P.q_empty s.runqueue) [ true ↦ ok s | false ↦ out_of_fuel ]
  scheduler_killall_loop (suc fuel) s = elim (P.q_empty s.runqueue) [
    | true ↦ ok s
    | false ↦ elim (P.q_remhead s.runqueue) [
      | none ↦ panic panicked
      | some (p, q) ↦ deref (s.heap p) >>= λ t.
          scheduler_killall_loop fuel
            (record s { runqueue = q; calls = dropping t.t_name ∷ s.calls })
    ]
  ]

  unfoldable pub scheduler_killall : Sys P → Outcome (Sys P)
  unfolding scheduler_killall_loop
  scheduler_killall s = do
    check (spl_raised s.cpu)
    scheduler_killall_loop (length (P.q_items s.runqueue)) s
