-- ===== src/Synch/Resumption.antt =====
-- What a thread does when it runs again behind a sleep in one of the loops of
-- Projects/OS161/kern/thread/synch.c.
use windborne.Base.{ℕ, List, Outcome, ok, deref, ◌>>=◌}
use windborne.Platform.{Platform}
use windborne.Synch.State.{Synch, Resting, outside, in_proberen, in_acquire}
use windborne.Synch.Semaphores.{proberen_loop}
use windborne.Synch.Locks.{acquire_loop}

module _ (P : Platform) where
  unfoldable pub rest : List ℕ → Resting → Synch P → Outcome (Synch P)
  unfolding proberen_loop acquire_loop
  rest wakes outside s = ok s
  rest wakes (in_proberen sem spl) s = proberen_loop P wakes sem spl s
  rest wakes (in_acquire lock spl) s = acquire_loop P wakes lock spl s

  unfoldable pub go_on : List ℕ → Synch P → Outcome (Synch P)
  unfolding rest
  go_on wakes s = do cur ← deref s.sys.curthread; rest wakes (s.resting cur) s
