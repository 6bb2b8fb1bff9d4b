-- ===== src/Thread/Creation.antt =====
-- `thread_fork` of Projects/OS161/kern/thread/thread.c as a whole, and the invariant across it.
use windborne.Base.{
  ℕ, ◌==◌, ◌≡◌, ◌≢◌, refl, ap, ◌∙◌, ◌⊎◌, inl, inr, true, false, List, Option, none, some, String,
  Outcome, ok, arith, Bool-cases, replicate, fun_ext,
}
use windborne.Spl.{splhigh}
use windborne.Platform.{Platform, Laws}
use windborne.Thread.State.{Thread, Sys, update}
use windborne.Thread.Fork.{
  Memory, enomem, new_thread, marked_stack, md_initpcb, share_cwd, create_table, thread_create,
  fork_stack, fork_sleepers, thread_fork,
}
use windborne.Thread.Invariant.{Inv}
use windborne.Thread.ForkBranches.{IsTabled, Forking, Refused, Forked}
use windborne.Thread.Forking.{sleepers_Ends}

-- The allocator returns memory that is not in use, and has memory for the process table.
pub record IsFresh {P : Platform} (m : Memory) (s : Sys P) : Type 0 where
  pub fresh : (p : ℕ) → m.thread_at ≡ some p → s.heap p ≡ none
  pub table : m.has_table ≡ true

-- The structure of the new thread: it starts at `mi_threadstart`, in its parent's directory.
abbrev pub child : ℕ → String → Option ℕ → ℕ → ℕ → ℕ → ℕ → Thread
child stack_size name cwd stack data1 data2 func = record (new_thread name) {
  t_stack = some (marked_stack stack);
  t_cwd = cwd;
  t_pcb = md_initpcb stack_size stack data1 data2 func;
}

abbrev pub get_stack : Option ℕ → ℕ
get_stack none = 0
get_stack (some a) = a

-- The ends of a call of `thread_fork`.
abbrev pub ForkEnds :
    {P : Platform} → Sys P → Memory → Thread → Outcome (ℕ × Option ℕ × Sys P) → Type 0
ForkEnds {P} s0 m t o =
    (code : ℕ) × (ret : Option ℕ) × (s : Sys P) × (o ≡ ok (code, ret, s))
    × (((p : ℕ) × (m.thread_at ≡ some p) × (code ≡ 0) × (ret ≡ some p) × Forked s0 p t s)
        ⊎ (code ≢ 0) × (ret ≡ none) × Refused s0 s)

module _ {P : Platform} (L : Laws P) (m : Memory) (name : String) (data1 data2 func : ℕ)
    (s : Sys P) where
  no_thread : m.thread_at ≡ none → thread_fork P m name data1 data2 func s ≡ ok (enomem, none, s)
  unfolding thread_fork
  no_thread e = ground arith

  no_name :
      (p : ℕ)
      → m.thread_at ≡ some p
      → m.has_name ≡ false
      → thread_fork P m name data1 data2 func s ≡ ok (enomem, none, s)
  unfolding thread_fork
  no_name p e n = ground arith

  table_lem :
      (s1 : Sys P)
      → m.has_table ≡ true
      → (t : List (Option ℕ)) × (create_table P m.has_table s1
          ≡ ok (record s1 { full_process_table = t }))
        × IsTabled s1 (record s1 { full_process_table = t })
  unfolding create_table
  table_lem s1 h = elim (Bool-cases (s1.numprocesses == 0)) [
    | inl zero_processes ↦
        (replicate 128 none, rw (zero_processes, h) refl, (refl, inr (ground arith, refl)))
    | inr more ↦ (s1.full_process_table, rw more refl, (refl, inl refl))
  ]

  -- The state in which the space is taken.
  abbrev prepared : List (Option ℕ) → ℕ → ℕ → Thread → Sys P
  prepared table p stack me = record s {
    heap =
        update (update s.heap p (some (new_thread name))) p
          (some (child P.stack_size name me.t_cwd stack data1 data2 func));
    full_process_table = table;
    calls = share_cwd me.t_cwd s.calls;
    cpu = (splhigh P.spl_high s.cpu).1;
  }

  abbrev created : List (Option ℕ) → ℕ → Sys P
  created table p = record s {
    heap = update s.heap p (some (new_thread name));
    full_process_table = table;
  }

  create_lem :
      (p : ℕ) (table : List (Option ℕ))
      → m.thread_at ≡ some p
      → m.has_name ≡ true
      → create_table P m.has_table (record s { heap = update s.heap p (some (new_thread name)) })
        ≡ ok (created table p)
      → thread_create P m name s ≡ ok (some p, created table p)
  unfolding thread_create
  create_lem p table e n c = rw (thread_create, e, n, c) refl

  no_stack :
      (p : ℕ) (s1 : Sys P)
      → thread_create P m name s ≡ ok (some p, s1)
      → m.stack_at ≡ none
      → thread_fork P m name data1 data2 func s
        ≡ ok (enomem, none, record s1 { heap = update s1.heap p none })
  unfolding thread_fork
  no_stack p s1 e k = rw (thread_fork, e, k) refl

  with_stack :
      (p stack : ℕ) (s1 : Sys P)
      → thread_create P m name s ≡ ok (some p, s1)
      → m.stack_at ≡ some stack
      → thread_fork P m name data1 data2 func s ≡ fork_stack P p stack data1 data2 func s1
  unfolding thread_fork
  with_stack p stack s1 e k = rw (thread_fork, e, k) refl

  stack_lem :
      (p stack cur : ℕ) (table : List (Option ℕ)) (me : Thread)
      → s.curthread ≡ some cur
      → s.heap cur ≡ some me
      → (p ≡ cur → ⊥)
      → fork_stack P p stack data1 data2 func (created table p)
        ≡ fork_sleepers P p s.cpu.curspl (prepared table p stack me)
  unfolding fork_stack
  stack_lem p stack cur table me c l n = ground arith

  prepared-Forking :
      (p stack : ℕ) (table : List (Option ℕ)) (me : Thread)
      → IsTabled s (record s { full_process_table = table })
      → Forking s p
          (child P.stack_size name me.t_cwd stack data1 data2 func)
          (prepared table p stack me)
  prepared-Forking p stack table me b = record {
    heap = fun_ext λ q. ground arith;
    ready = refl;
    asleep = refl;
    dead = refl;
    numthreads = refl;
    curthread = refl;
    cpu = refl;
    calls = refl;
    tabled = b;
    q_room = omega arith;
    room = omega arith;
  }

  -- A failure before interrupts are turned off leaves the state as it was, but for the table.
  early_Refused :
      (p : ℕ) (table : List (Option ℕ))
      → s.heap p ≡ none
      → IsTabled s (record s { full_process_table = table })
      → Refused s (record (created table p) { heap = update (created table p).heap p none })
  early_Refused p table e b = record {
    heap = λ q. ground arith;
    ready = refl;
    asleep = refl;
    dead = refl;
    numthreads = refl;
    curthread = refl;
    cpu = refl;
    calls = inl refl;
    tabled = b;
    q_room = omega arith;
    room = omega arith;
  }

  same_Refused : Refused s s
  same_Refused = record {
    heap = λ q. refl;
    ready = refl;
    asleep = refl;
    dead = refl;
    numthreads = refl;
    curthread = refl;
    cpu = refl;
    calls = inl refl;
    tabled = (refl, inl refl);
    q_room = omega arith;
    room = omega arith;
  }

  module _ (cur : ℕ) (me : Thread) (here : s.heap cur ≡ some me) (v : Inv P cur s)
      (k : IsFresh m s) where
    stack_case :
        (p : ℕ) (stack : Option ℕ)
        → m.thread_at ≡ some p
        → m.has_name ≡ true
        → m.stack_at ≡ stack
        → ForkEnds s m
            (child P.stack_size name me.t_cwd (get_stack stack) data1 data2 func)
            (thread_fork P m name data1 data2 func s)
    stack_case p none e n o =
        let (table, made, b) =
          table_lem (record s { heap = update s.heap p (some (new_thread name)) }) k.table in
        (
          enomem,
          none,
          _,
          no_stack p (created table p) (create_lem p table e n made) o,
          inr (omega arith, refl, early_Refused p table (k.fresh p e) b),
        )
    stack_case p (some stack) e n o =
        let (table, made, b) =
          table_lem (record s { heap = update s.heap p (some (new_thread name)) }) k.table in
        let (code, ret, s', result, end) =
          sleepers_Ends L s p (child P.stack_size name me.t_cwd stack data1 data2 func)
            (k.fresh p e) v.consistent (prepared table p stack me)
            (prepared-Forking p stack table me b) (omega (arith, v.population)) in
        (
          code,
          ret,
          s',
          with_stack p stack (created table p) (create_lem p table e n made) o
              ∙ stack_lem p stack cur table me v.running here (λ q. cc (ap s.heap q, k.fresh p e))
              ∙ result,
          elim end [ inl x ↦ inl (p, e, x.0, x.1, x.2) | inr y ↦ inr y ],
        )

    -- `thread_fork`, called from the invariant, with an allocator that returns unused memory and
    -- has memory for the process table, returns, and no assertion fails. Either it returns 0, and
    -- the new thread is the last on the run queue, in its parent's directory and at
    -- `mi_threadstart`, with one more reference to that directory and with space on the run queue
    -- and among the sleepers for all threads; or it returns an error, and threads, lists, counter
    -- and interrupt level are what they were, and a reference to the directory that was taken has
    -- been given back. In both cases the process table is as it was or, where no process is
    -- counted, a new empty one.
    pub thread_fork_lem :
        ForkEnds s m
          (child P.stack_size name me.t_cwd (get_stack m.stack_at) data1 data2 func)
          (thread_fork P m name data1 data2 func s)
    thread_fork_lem = memory_case m.thread_at refl (Bool-cases m.has_name)
      where
        memory_case :
            (o : Option ℕ)
            → m.thread_at ≡ o
            → (m.has_name ≡ true) ⊎ (m.has_name ≡ false)
            → ForkEnds s m
                (child P.stack_size name me.t_cwd (get_stack m.stack_at) data1 data2 func)
                (thread_fork P m name data1 data2 func s)
        memory_case none e b = (enomem, none, s, no_thread e, inr (omega arith, refl, same_Refused))
        memory_case (some p) e (inl n) = stack_case p m.stack_at e n refl
        memory_case (some p) e (inr n) =
            (enomem, none, s, no_name p e n, inr (omega arith, refl, same_Refused))
