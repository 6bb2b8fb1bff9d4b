-- ===== src/Synch/Semaphores.antt =====
-- `sem_create`, `sem_destroy`, `P` (proberen) and `V` (verhogen) of
-- Projects/OS161/kern/thread/synch.c.
--
-- A call that sleeps ends in the thread that runs next. When the sleeper runs again, `go_on` of
-- Synch/Resumption takes it back to the test of its loop.
use windborne.Base.{
  ℕ, not, List, Bool, Option, none, some, String, Outcome, ok, check, deref, ◌>>=◌, ◌>>◌,
  if◌then◌else◌,
}
use windborne.Base.Int.{int_inc, int_dec, ℤ, pos, ltb_ℤ}
use windborne.Spl.{is_zero, splx, splhigh}
use windborne.Platform.{Platform}
use windborne.Thread.State.{Sys}
use windborne.Thread.Scheduler.{thread_wakeup, thread_hassleepers}
use windborne.Thread.Switch.{thread_sleep}
use windborne.Synch.State.{Semaphore, Synch, outside, in_proberen, put}

module _ (P : Platform) where
  -- The level is raised, and set back.
  unfoldable pub raise : Sys P → ℤ × Sys P
  unfolding splhigh
  raise s = ((splhigh P.spl_high s.cpu).0, record s { cpu = (splhigh P.spl_high s.cpu).1 })

  unfoldable pub lower : ℤ → Sys P → Sys P
  unfolding splx
  lower spl s = record s { cpu = (splx spl s.cpu).1 }

  -- `sem_at` is what `kmalloc` returns, `has_name` whether `kstrdup` succeeds.
  unfoldable pub sem_create : Option ℕ → Bool → String → ℤ → Synch P → Outcome (Option ℕ × Synch P)
  sem_create sem_at has_name name initial_count s = do
    check (not (ltb_ℤ initial_count (pos 0)))
    elim sem_at [
      | none ↦ ok (none, s)
      | some sem ↦
          if has_name
          then ok (
            some sem,
            record s {
              sems = put s.sems sem (some (record { name = name; count = initial_count }));
            },
          )
          else ok (none, s)
    ]

  unfoldable pub sem_destroy : ℕ → Synch P → Outcome (Synch P)
  unfolding raise lower thread_hassleepers
  sem_destroy sem s = do
    let (spl, s1) = raise s.sys
    sleepers ← thread_hassleepers P sem s1
    check (not sleepers)
    k ← deref (s.sems sem)
    ok (record s { sys = lower spl s1; sems = put s.sems sem none })

  -- The end of `P`, behind its loop.
  unfoldable pub proberen_done : ℕ → ℤ → Semaphore → Synch P → Outcome (Synch P)
  unfolding lower
  proberen_done sem spl k s = do
    check (ltb_ℤ (pos 0) k.count)
    cur ← deref s.sys.curthread
    ok (record s {
      sys = lower spl s.sys;
      sems = put s.sems sem (some (record k { count = int_dec k.count }));
      resting = put s.resting cur outside;
    })

  -- The test of the loop of `P`: another round of sleep, or its end.
  unfoldable pub proberen_loop : List ℕ → ℕ → ℤ → Synch P → Outcome (Synch P)
  unfolding thread_sleep proberen_done
  proberen_loop wakes sem spl s = do
    k ← deref (s.sems sem)
    if is_zero k.count
        then deref s.sys.curthread >>= (λ cur. thread_sleep P wakes sem s.sys >>= λ t.
            ok (record s { sys = t; resting = put s.resting cur (in_proberen sem spl) }))
        else proberen_done sem spl k s

  unfoldable pub proberen : List ℕ → ℕ → Synch P → Outcome (Synch P)
  unfolding raise proberen_loop
  proberen wakes sem s = do
    check (is_zero s.sys.cpu.in_interrupt)
    let (spl, s1) = raise s.sys
    proberen_loop wakes sem spl (record s { sys = s1 })

  unfoldable pub verhogen : ℕ → Synch P → Outcome (Synch P)
  unfolding raise lower thread_wakeup
  verhogen sem s = do
    let (spl, s1) = raise s.sys
    k ← deref (s.sems sem)
    check (ltb_ℤ (pos 0) (int_inc k.count))
    s2 ← thread_wakeup P sem s1
    ok (record s {
      sys = lower spl s2;
      sems = put s.sems sem (some (record k { count = int_inc k.count }));
    })
