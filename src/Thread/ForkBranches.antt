-- ===== src/Thread/ForkBranches.antt =====
-- The branches of `thread_fork` of Projects/OS161/kern/thread/thread.c as equations, and the states
-- on its way.
use windborne.Base.{
  ℕ, ◌+◌, ◌≤◌, ◌≡◌, ◌≢◌, refl, ◌∙◌, ◌⊎◌, true, [], ◌∷◌, ◌++◌, Option, none, some, Outcome, ok,
  arith, replicate,
}
use windborne.Base.Int.{ℤ}
use windborne.Spl.{spl_raised, splx, splhigh}
use windborne.Platform.{Platform}
use windborne.Thread.State.{Thread, Sys, vop_decref, vop_incref, update}
use windborne.Thread.Fork.{
  share_cwd, drop_cwd, fork_fail, fork_run, fork_queue, fork_zombies, fork_sleepers,
}

-- The process table is as it was, or, where no process is counted, a new empty one.
abbrev pub IsTabled : {P : Platform} → Sys P → Sys P → Type 0
IsTabled s0 s =
    (s.numprocesses ≡ s0.numprocesses)
    × ((s.full_process_table ≡ s0.full_process_table)
        ⊎ ((s0.numprocesses ≡ 0) × (s.full_process_table ≡ replicate 128 none)))

-- `s` is `s0` with a new thread `t` at `p`, at a raised level; the containers hold what they held,
-- and may have more space.
pub record Forking {P : Platform} (s0 : Sys P) (p : ℕ) (t : Thread) (s : Sys P) : Type 0 where
  pub heap : s.heap ≡ update s0.heap p (some t)
  pub ready : P.q_items s.runqueue ≡ P.q_items s0.runqueue
  pub asleep : P.items s.sleepers ≡ P.items s0.sleepers
  pub dead : P.items s.zombies ≡ P.items s0.zombies
  pub numthreads : s.numthreads ≡ s0.numthreads
  pub curthread : s.curthread ≡ s0.curthread
  pub cpu : s.cpu ≡ (splhigh P.spl_high s0.cpu).1
  pub calls : s.calls ≡ share_cwd t.t_cwd s0.calls
  pub tabled : IsTabled s0 s
  pub q_room : P.q_room s0.runqueue ≤ P.q_room s.runqueue
  pub room : P.room s0.sleepers ≤ P.room s.sleepers

-- What a failed call leaves: a reference to a directory that it has taken it has given back.
pub record Refused {P : Platform} (s0 s : Sys P) : Type 0 where
  pub heap : (q : ℕ) → s.heap q ≡ s0.heap q
  pub ready : P.q_items s.runqueue ≡ P.q_items s0.runqueue
  pub asleep : P.items s.sleepers ≡ P.items s0.sleepers
  pub dead : P.items s.zombies ≡ P.items s0.zombies
  pub numthreads : s.numthreads ≡ s0.numthreads
  pub curthread : s.curthread ≡ s0.curthread
  pub cpu : s.cpu ≡ s0.cpu
  pub calls : (s.calls ≡ s0.calls) ⊎ ((v : ℕ) × (s.calls ≡ vop_decref v ∷ vop_incref v ∷ s0.calls))
  pub tabled : IsTabled s0 s
  pub q_room : P.q_room s0.runqueue ≤ P.q_room s.runqueue
  pub room : P.room s0.sleepers ≤ P.room s.sleepers

-- What a successful call leaves: the new thread is the last that is ready, with one more reference to
-- its directory, and there is space for all threads on every list.
pub record Forked {P : Platform} (s0 : Sys P) (p : ℕ) (t : Thread) (s : Sys P) : Type 0 where
  pub heap : s.heap ≡ update s0.heap p (some t)
  pub ready : P.q_items s.runqueue ≡ P.q_items s0.runqueue ++ p ∷ []
  pub asleep : P.items s.sleepers ≡ P.items s0.sleepers
  pub dead : P.items s.zombies ≡ P.items s0.zombies
  pub numthreads : s.numthreads ≡ s0.numthreads + 1
  pub curthread : s.curthread ≡ s0.curthread
  pub cpu : s.cpu ≡ s0.cpu
  pub calls : s.calls ≡ share_cwd t.t_cwd s0.calls
  pub tabled : IsTabled s0 s
  pub q_room : s0.numthreads + 1 ≤ P.q_room s.runqueue
  pub room : s0.numthreads + 1 ≤ P.room s.sleepers
  pub zombie_room : s0.numthreads + 1 ≤ P.room s.zombies

-- The two ends of a call.
abbrev pub Ends : {P : Platform} → Sys P → ℕ → Thread → Outcome (ℕ × Option ℕ × Sys P) → Type 0
Ends {P} s0 p t o =
    (code : ℕ) × (ret : Option ℕ) × (s : Sys P) × (o ≡ ok (code, ret, s))
    × ((code ≡ 0) × (ret ≡ some p) × Forked s0 p t s ⊎ (code ≢ 0) × (ret ≡ none) × Refused s0 s)

module _ (P : Platform) (p : ℕ) (t : Thread) where
  -- The branches, as equations.
  module _ (spl : ℤ) (s : Sys P) where
    pub queue_ok :
        spl_raised s.cpu ≡ true
        → (P.q_preallocate s.runqueue (s.numthreads + 1)).0 ≡ 0
        → fork_queue P p spl s
          ≡ fork_run P p spl
              (record s { runqueue = (P.q_preallocate s.runqueue (s.numthreads + 1)).1 })
    unfolding fork_queue
    queue_ok r e = ground arith

    pub queue_fails :
        spl_raised s.cpu ≡ true
        → (P.q_preallocate s.runqueue (s.numthreads + 1)).0 ≢ 0
        → fork_queue P p spl s
          ≡ fork_fail P p spl
              (P.q_preallocate s.runqueue (s.numthreads + 1)).0
              (record s { runqueue = (P.q_preallocate s.runqueue (s.numthreads + 1)).1 })
    unfolding fork_queue
    queue_fails r e = ground arith

    pub zombies_ok :
        (P.array_preallocate s.zombies (s.numthreads + 1)).0 ≡ 0
        → fork_zombies P p spl s
          ≡ fork_queue P p spl
              (record s { zombies = (P.array_preallocate s.zombies (s.numthreads + 1)).1 })
    unfolding fork_zombies
    zombies_ok e = ground arith

    pub zombies_fails :
        (P.array_preallocate s.zombies (s.numthreads + 1)).0 ≢ 0
        → fork_zombies P p spl s
          ≡ fork_fail P p spl
              (P.array_preallocate s.zombies (s.numthreads + 1)).0
              (record s { zombies = (P.array_preallocate s.zombies (s.numthreads + 1)).1 })
    unfolding fork_zombies
    zombies_fails e = ground arith

    pub sleepers_ok :
        (P.array_preallocate s.sleepers (s.numthreads + 1)).0 ≡ 0
        → fork_sleepers P p spl s
          ≡ fork_zombies P p spl
              (record s { sleepers = (P.array_preallocate s.sleepers (s.numthreads + 1)).1 })
    unfolding fork_sleepers
    sleepers_ok e = ground arith

    pub sleepers_fails :
        (P.array_preallocate s.sleepers (s.numthreads + 1)).0 ≢ 0
        → fork_sleepers P p spl s
          ≡ fork_fail P p spl
              (P.array_preallocate s.sleepers (s.numthreads + 1)).0
              (record s { sleepers = (P.array_preallocate s.sleepers (s.numthreads + 1)).1 })
    unfolding fork_sleepers
    sleepers_fails e = ground arith

    pub run_lem :
        spl_raised s.cpu ≡ true
        → (P.q_addtail s.runqueue p).0 ≡ 0
        → fork_run P p spl s
          ≡ ok (
            0,
            some p,
            record s {
              runqueue = (P.q_addtail s.runqueue p).1;
              numthreads = s.numthreads + 1;
              cpu = (splx spl s.cpu).1;
            },
          )
    unfolding fork_run
    run_lem r e = rw (r, e) refl

    pub fail_lem :
        (r : ℕ)
        → s.heap p ≡ some t
        → fork_fail P p spl r s
          ≡ ok (
            r,
            none,
            record s {
              cpu = (splx spl s.cpu).1;
              heap = update s.heap p none;
              calls = drop_cwd t.t_cwd s.calls;
            },
          )
    unfolding fork_fail
    fail_lem r e = rw (fork_fail, e) refl

  module _ (s0 s : Sys P) (f : Forking s0 p t s) where
    pub Forking-queue :
        (q : P.Queue)
        → P.q_items q ≡ P.q_items s.runqueue
        → P.q_room s.runqueue ≤ P.q_room q
        → Forking s0 p t (record s { runqueue = q })
    Forking-queue q e r = record {
      heap = f.heap;
      ready = e ∙ f.ready;
      asleep = f.asleep;
      dead = f.dead;
      numthreads = f.numthreads;
      curthread = f.curthread;
      cpu = f.cpu;
      calls = f.calls;
      tabled = f.tabled;
      q_room = omega (arith, f.q_room);
      room = f.room;
    }

    pub Forking-zombies :
        (z : P.Array) → P.items z ≡ P.items s.zombies → Forking s0 p t (record s { zombies = z })
    Forking-zombies z e = record {
      heap = f.heap;
      ready = f.ready;
      asleep = f.asleep;
      dead = e ∙ f.dead;
      numthreads = f.numthreads;
      curthread = f.curthread;
      cpu = f.cpu;
      calls = f.calls;
      tabled = f.tabled;
      q_room = f.q_room;
      room = f.room;
    }

    pub Forking-sleepers :
        (a : P.Array)
        → P.items a ≡ P.items s.sleepers
        → P.room s.sleepers ≤ P.room a
        → Forking s0 p t (record s { sleepers = a })
    Forking-sleepers a e r = record {
      heap = f.heap;
      ready = f.ready;
      asleep = e ∙ f.asleep;
      dead = f.dead;
      numthreads = f.numthreads;
      curthread = f.curthread;
      cpu = f.cpu;
      calls = f.calls;
      tabled = f.tabled;
      q_room = f.q_room;
      room = omega (arith, f.room);
    }
