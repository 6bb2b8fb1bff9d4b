-- ===== src/Clock/Hardclock.antt =====
-- `hardclock` and `clocksleep` of Projects/OS161/kern/thread/hardclock.c. HZ and the address of
-- `lbolt` are parameters.
use windborne.Base.{ℕ, List, Option, none, some, Outcome, ok, not, ◌>>=◌, if◌then◌else◌}
use windborne.Base.Int.{ℤ, pos, ltb_ℤ, int_inc, int_dec}
use windborne.Spl.{splx, splhigh}
use windborne.Platform.{Platform}
use windborne.Thread.State.{Sys}
use windborne.Thread.Scheduler.{thread_wakeup}
use windborne.Thread.Switch.{thread_yield, thread_sleep}

module _ (P : Platform) (hz : ℕ) (lbolt : ℕ) where
  -- The counter behind the test, and the state.
  unfoldable pub tick : ℤ → Sys P → Outcome (ℤ × Sys P)
  tick lbolt_counter s =
      let counted = int_inc lbolt_counter in
      if not (ltb_ℤ counted (pos hz))
      then (thread_wakeup P lbolt s >>= λ s1. ok (pos 0, s1))
      else ok (counted, s)

  unfoldable pub hardclock : List ℕ → ℤ → Sys P → Outcome (ℤ × Sys P)
  unfolding tick
  hardclock wakes lbolt_counter s =
      tick lbolt_counter s >>= λ r. thread_yield P wakes r.1 >>= λ t. ok (r.0, t)

  -- The test of the loop of `clocksleep` with `num_secs` seconds to go: the thread sleeps, with
  -- what it has to go when it runs again, or the function is left.
  unfoldable pub clocksleep_loop : List ℕ → ℤ → ℤ → Sys P → Outcome (Option ℤ × Sys P)
  clocksleep_loop wakes num_secs spl s =
      if ltb_ℤ (pos 0) num_secs
      then (thread_sleep P wakes lbolt s >>= λ t. ok (some (int_dec num_secs), t))
      else ok (none, record s { cpu = (splx spl s.cpu).1 })

  unfoldable pub clocksleep : List ℕ → ℤ → Sys P → Outcome (Option ℤ × Sys P)
  unfolding splhigh clocksleep_loop
  clocksleep wakes num_secs s =
      let (spl, c) = splhigh P.spl_high s.cpu in
      clocksleep_loop wakes num_secs spl (record s { cpu = c })
