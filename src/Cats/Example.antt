-- ===== src/Cats/Example.antt =====
-- The system of Thread/Example with more space, and an allocator for the fork loops of
-- Projects/OS161/kern/asst1.
use windborne.Base.{
  ℕ, ◌+◌, ◌≡◌, refl, Bool, true, false, if◌then◌else◌, [], ◌∷◌, Option, none, some, arith,
}
use windborne.Platform.Bounded.{bounded}
use windborne.Thread.State.{Thread, Sys}
use windborne.Thread.Fork.{Memory}
use windborne.Thread.Invariant.{Inv}
use windborne.Thread.Creation.{IsFresh}
use windborne.Thread.Example.{open_cpu, three, three-Inv, open-IsConsistent}

-- Memory at `p` for a thread and its stack, where no thread is at `p`.
abbrev memory_at : ℕ → Bool → Memory
memory_at p is_free = record {
  thread_at = if is_free then some p else none;
  has_name = true;
  has_table = true;
  stack_at = some 20480;
}

abbrev is_none : Option Thread → Bool
is_none none = true
is_none (some t) = false

abbrev pub allocate : Sys bounded → Memory
allocate s = memory_at (10 + s.numthreads) (is_none (s.heap (10 + s.numthreads)))

memory_lem :
    (s : Sys bounded) (p : ℕ) (o : Option Thread)
    → s.heap p ≡ o
    → IsFresh (memory_at p (is_none o)) s
memory_lem s p none e = record { fresh = λ q h. ground (arith, e); table = refl }
memory_lem s p (some t) e = record { fresh = λ q h. ground arith; table = refl }

pub allocate-IsFresh : (s : Sys bounded) → IsFresh (allocate s) s
allocate-IsFresh s = memory_lem s (10 + s.numthreads) (s.heap (10 + s.numthreads)) refl

-- The system with an allocator that grants more.
abbrev pub roomy : Sys bounded
roomy = record (three open_cpu) {
  sleepers = record { held = 3 ∷ []; space = 4; limit = 40 };
  zombies = record { held = []; space = 4; limit = 40 };
  runqueue = record { held = 2 ∷ []; space = 4; limit = 40 };
}

pub roomy-Inv : Inv bounded 1 roomy
roomy-Inv =
    let v = three-Inv open_cpu open-IsConsistent in
    record {
      running = v.running;
      current = v.current;
      parked = v.parked;
      dead = v.dead;
      unique = v.unique;
      population = v.population;
      q_space = v.q_space;
      space = v.space;
      consistent = v.consistent;
    }
