-- ===== src/Thread/Example.antt =====
-- A system of three threads of Projects/OS161/kern/thread/thread.c: thread 1 runs, thread 2 is ready
-- and has not started, thread 3 sleeps at address 70.
use windborne.Base.{
  ℕ, ◌+◌, ◌<◌, ◌≡◌, refl, subst, inl, inr, ◌⊎◌, List, [], ◌∷◌, none, some, arith, count, count-nil,
  count-cons,
}
use windborne.Base.Int.{pos}
use windborne.Spl.{Cpu}
use windborne.Spl.Nesting.{IsConsistent}
use windborne.Platform.Bounded.{Store, bounded}
use windborne.Thread.State.{Thread, sleeping, Sys, update}
use windborne.Thread.Fork.{new_thread, marked_stack, md_initpcb}
use windborne.Thread.Invariant.{Inv, IsParked}

abbrev pub store : List ℕ → Store
store xs = record { held = xs; space = 4; limit = 4 }

abbrev pub open_cpu : Cpu
open_cpu = record { status = 1; curspl = pos 0; in_interrupt = pos 0 }

abbrev pub closed_cpu : Cpu
closed_cpu = record { status = 0; curspl = pos 15; in_interrupt = pos 0 }

abbrev pub runner : Thread
runner = record (new_thread "boot") { t_cwd = some 9 }

abbrev pub starter : Thread
starter = record (new_thread "child") {
  t_stack = some (marked_stack 8192);
  t_pcb = md_initpcb 4096 8192 5 6 7;
}

abbrev pub sleeper : Thread
sleeper = record (new_thread "sleeper") {
  t_sleepaddr = some 70;
  t_pcb = record {
    pcb_switchstack = sleeping;
    pcb_kstack = 0;
    pcb_ininterrupt = pos 0;
    pcb_badfaultfunc = none;
  };
}

abbrev pub three : Cpu → Sys bounded
three c = record {
  cpu = c;
  heap = update (update (update (λ p. none) 1 (some runner)) 2 (some starter)) 3 (some sleeper);
  curthread = some 1;
  sleepers = store (3 ∷ []);
  zombies = store [];
  runqueue = store (2 ∷ []);
  numthreads = 3;
  numprocesses = 0;
  full_process_table = [];
  curkstack = 0;
  calls = [];
}

listed : (p : ℕ) → 0 < count p (2 ∷ []) + count p (3 ∷ []) → (2 ≡ p) ⊎ (3 ≡ p)
listed p c = ground (arith, count-cons p 2 [], count-cons p 3 [], count-nil p)

pub three-Inv : (c : Cpu) → IsConsistent c → Inv bounded 1 (three c)
three-Inv c k = record {
  running = refl;
  current = (runner, refl, refl);
  parked = λ p h. elim (listed p h) [
    | inl e ↦ subst (λ x. IsParked ((three c).heap x)) e (starter, refl, refl, tt)
    | inr e ↦ subst (λ x. IsParked ((three c).heap x)) e (sleeper, refl, refl, tt)
  ];
  dead = λ p h. absurd (omega (arith, count-nil p));
  unique = λ p.
      ground (arith, count-cons p 1 (2 ∷ []), count-cons p 2 [], count-cons p 3 [], count-nil p);
  population = omega arith;
  q_space = omega arith;
  space = omega arith;
  consistent = k;
}

-- The same threads with 3 awake.
abbrev pub ready : Cpu → Sys bounded
ready c = record (three c) { sleepers = store []; runqueue = store (2 ∷ 3 ∷ []) }

pub ready-Inv : (c : Cpu) → IsConsistent c → Inv bounded 1 (ready c)
ready-Inv c k = record {
  running = refl;
  current = (runner, refl, refl);
  parked = λ p h. (three-Inv c k).parked p (
      ground
        (arith, h, count-cons p 2 [], count-cons p 2 (3 ∷ []), count-cons p 3 [], count-nil p));
  dead = λ p h. absurd (omega (arith, count-nil p));
  unique = λ p.
      ground (
        arith,
        count-cons p 1 (2 ∷ 3 ∷ []),
        count-cons p 2 (3 ∷ []),
        count-cons p 3 [],
        count-nil p,
      );
  population = omega arith;
  q_space = omega arith;
  space = omega arith;
  consistent = k;
}

pub open-IsConsistent : IsConsistent open_cpu
open-IsConsistent = omega arith

pub closed-IsConsistent : IsConsistent closed_cpu
closed-IsConsistent = omega arith
