-- ===== src/Thread/Invariant.antt =====
-- What holds of the thread system of Projects/OS161/kern/thread whenever a thread runs.
use windborne.Base.{
  ℕ, ◌+◌, ◌≤◌, ◌<◌, ◌≡◌, true, ◌∷◌, Option, some, length, count, Outcome, ok, idle, ◌⊎◌,
}
use windborne.Base.Int.{pos, ◌≤ℤ◌}
use windborne.Spl.Nesting.{IsConsistent}
use windborne.Platform.{Platform}
use windborne.Thread.State.{Thread, Frame, threadstart, yielding, sleeping, exiting, Sys, magic_ok}
use windborne.Thread.Reaping.{IsDead}

-- A thread that can be resumed in this frame.
abbrev pub IsFrame : Frame → Type 0
IsFrame (threadstart d1 d2 f) = Unit
IsFrame (yielding spl) = pos 0 ≤ℤ spl
IsFrame sleeping = Unit
IsFrame exiting = ⊥

-- The structure is allocated, and the magic number on its stack is intact.
abbrev pub IsIntact : Option Thread → Type 0
IsIntact o = (t : Thread) × (o ≡ some t) × (magic_ok t.t_stack ≡ true)

abbrev pub IsParked : Option Thread → Type 0
IsParked o =
    (t : Thread) × (o ≡ some t) × (magic_ok t.t_stack ≡ true) × IsFrame t.t_pcb.pcb_switchstack

-- Thread `cur` runs.
pub record Inv (P : Platform) (cur : ℕ) (s : Sys P) : Type 0 where
  pub running : s.curthread ≡ some cur
  pub current : IsIntact (s.heap cur)
  -- A thread on the run queue or among the sleepers can be resumed; it is no zombie's frame.
  pub parked :
      (p : ℕ)
      → 0 < count p (P.q_items s.runqueue) + count p (P.items s.sleepers)
      → IsParked (s.heap p)
  pub dead : (p : ℕ) → 0 < count p (P.items s.zombies) → IsDead (s.heap p)
  -- A thread is in one place only.
  pub unique :
      (p : ℕ)
      → count p (cur ∷ P.q_items s.runqueue)
          + count p (P.items s.sleepers)
          + count p (P.items s.zombies)
        ≤ 1
  -- `numthreads` counts the threads that are not zombies, and there is space for all of them on
  -- either list.
  pub population : s.numthreads ≡ 1 + length (P.q_items s.runqueue) + length (P.items s.sleepers)
  pub q_space : s.numthreads ≤ P.q_room s.runqueue
  pub space : s.numthreads ≤ P.room s.sleepers
  pub consistent : IsConsistent s.cpu

-- What an operation ends in: thread `cur` runs, and the invariant holds.
abbrev pub Runs : {P : Platform} → ℕ → Outcome (Sys P) → Type 0
Runs {P} cur o = (s : Sys P) × (o ≡ ok s) × Inv P cur s

-- The processor waits for an interrupt, or some thread runs and the invariant holds. Nothing
-- panics.
abbrev pub Settles : {P : Platform} → Outcome (Sys P) → Type 0
Settles o = (o ≡ idle) ⊎ ((nu : ℕ) × Runs nu o)
