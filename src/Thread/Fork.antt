-- ===== src/Thread/Fork.antt =====
-- `fptInitialize`, `thread_create`, `thread_fork`, `thread_bootstrap` and the panic functions of
-- Projects/OS161/kern/thread/thread.c, and `md_initpcb0`, `md_initpcb` of kern/mips/pcb.c.
use windborne.Base.{
  ℕ, zero, suc, ◌+◌, ◌==◌, Bool, true, false, List, ◌∷◌, Option, none, some, String, Outcome, ok,
  panic, panicked, bad_pointer, check, deref, ◌>>=◌, ◌>>◌, if◌then◌else◌, replicate,
}
use windborne.Base.Int.{ℤ, pos, negsuc}
use windborne.Spl.{spl_raised, splx, splhigh}
use windborne.Platform.{Platform}
use windborne.Thread.State.{
  threadstart, yielding, Pcb, Stack, Thread, Sys, Call, update, vop_incref, vop_decref, dropping,
}
use windborne.Thread.Scheduler.{make_runnable, scheduler_killall}

-- ENOMEM of kern/include/kern/errno.h
abbrev pub enomem : ℕ
enomem = 4

-- What the calls of `kmalloc` and `kstrdup` return: the addresses of the thread structure and of its
-- stack, and whether there is memory for the name and for the process table.
pub record Memory : Type 0 where
  pub thread_at : Option ℕ
  pub has_name : Bool
  pub has_table : Bool
  pub stack_at : Option ℕ

abbrev no_pcb : Pcb
no_pcb = record {
  pcb_switchstack = yielding (pos 0);
  pcb_kstack = 0;
  pcb_ininterrupt = pos 0;
  pcb_badfaultfunc = none;
}

-- The fields that `thread_create` sets. It leaves `t_pcb` as it is in the fresh memory; both callers
-- fill it in before the thread can run.
abbrev pub new_thread : String → Thread
new_thread name = record {
  t_pcb = no_pcb;
  t_name = name;
  t_sleepaddr = none;
  t_stack = none;
  pid = pos 0;
  exit_status = negsuc 0;
  parent = none;
  pros_exit = 0;
  numchilds = 0;
  t_vmspace = none;
  t_cwd = none;
}

-- A stack with the magic number on its bottom end.
abbrev pub marked_stack : ℕ → Stack
marked_stack stack = record { base = stack; byte0 = 0xae; byte1 = 0x11; byte2 = 0xda; byte3 = 0x33 }

-- `md_initpcb`, with the stack at `stack`
abbrev pub md_initpcb : ℕ → ℕ → ℕ → ℕ → ℕ → Pcb
md_initpcb stack_size stack data1 data2 func = record {
  pcb_switchstack = threadstart data1 data2 func;
  pcb_kstack = stack + stack_size;
  pcb_ininterrupt = pos 0;
  pcb_badfaultfunc = none;
}

-- `md_initpcb0`: its `pcb_switchstack` is overwritten at the first switch.
abbrev pub md_initpcb0 : ℕ → Pcb
md_initpcb0 curkstack = record no_pcb { pcb_kstack = curkstack }

-- The references to the current directory, taken and given back where it is not NULL.
abbrev pub share_cwd : Option ℕ → List Call → List Call
share_cwd none calls = calls
share_cwd (some v) calls = vop_incref v ∷ calls

abbrev pub drop_cwd : Option ℕ → List Call → List Call
drop_cwd none calls = calls
drop_cwd (some v) calls = vop_decref v ∷ calls

module _ (P : Platform) where
  -- The result of `kmalloc` is not tested before the stores.
  unfoldable pub fpt_initialize : Bool → Sys P → Outcome (Sys P)
  fpt_initialize false s = panic bad_pointer
  fpt_initialize true s = ok (record s { full_process_table = replicate 128 none })

  unfoldable pub create_table : Bool → Sys P → Outcome (Sys P)
  unfolding fpt_initialize
  create_table has_table s = if s.numprocesses == 0 then fpt_initialize has_table s else ok s

  unfoldable pub thread_create : Memory → String → Sys P → Outcome (Option ℕ × Sys P)
  unfolding create_table
  thread_create m name s = elim m.thread_at [
    | none ↦ ok (none, s)
    | some p ↦
        if m.has_name
        then create_table m.has_table (record s { heap = update s.heap p (some (new_thread name)) })
          >>= (λ s'. ok (some p, s'))
        else ok (none, s)
  ]

  -- The label `fail`.
  unfoldable pub fork_fail : ℕ → ℤ → ℕ → Sys P → Outcome (ℕ × Option ℕ × Sys P)
  unfolding splx
  fork_fail p spl result s = do
    t ← deref (s.heap p)
    ok (
      result,
      none,
      record s {
        cpu = (splx spl s.cpu).1;
        heap = update s.heap p none;
        calls = drop_cwd t.t_cwd s.calls;
      },
    )

  unfoldable pub fork_done : ℕ → ℤ → Sys P → Outcome (ℕ × Option ℕ × Sys P)
  unfolding splx
  fork_done p spl s =
      ok (0, some p, record s { numthreads = s.numthreads + 1; cpu = (splx spl s.cpu).1 })

  unfoldable pub fork_run : ℕ → ℤ → Sys P → Outcome (ℕ × Option ℕ × Sys P)
  unfolding make_runnable fork_done fork_fail
  fork_run p spl s = do
    (result, s1) ← make_runnable P p s
    if result == 0 then fork_done p spl s1 else fork_fail p spl result s1

  -- The space that is taken in advance, each failure leaving by `fail`.
  unfoldable pub fork_queue : ℕ → ℤ → Sys P → Outcome (ℕ × Option ℕ × Sys P)
  unfolding fork_run
  fork_queue p spl s = do
    check (spl_raised s.cpu)
    let (result, q) = P.q_preallocate s.runqueue (s.numthreads + 1)
    let s1 = record s { runqueue = q }
    if result == 0 then fork_run p spl s1 else fork_fail p spl result s1

  unfoldable pub fork_zombies : ℕ → ℤ → Sys P → Outcome (ℕ × Option ℕ × Sys P)
  unfolding fork_queue
  fork_zombies p spl s = do
    let (result, a) = P.array_preallocate s.zombies (s.numthreads + 1)
    let s1 = record s { zombies = a }
    if result == 0 then fork_queue p spl s1 else fork_fail p spl result s1

  unfoldable pub fork_sleepers : ℕ → ℤ → Sys P → Outcome (ℕ × Option ℕ × Sys P)
  unfolding fork_zombies
  fork_sleepers p spl s = do
    let (result, a) = P.array_preallocate s.sleepers (s.numthreads + 1)
    let s1 = record s { sleepers = a }
    if result == 0 then fork_zombies p spl s1 else fork_fail p spl result s1

  -- From the stack on: the magic number, the current directory, the pcb, then interrupts off.
  unfoldable pub fork_stack : ℕ → ℕ → ℕ → ℕ → ℕ → Sys P → Outcome (ℕ × Option ℕ × Sys P)
  unfolding fork_sleepers splhigh
  fork_stack p stack data1 data2 func s = do
    cur ← deref s.curthread
    me ← deref (s.heap cur)
    t ← deref (s.heap p)
    let t1 = record t {
      t_stack = some (marked_stack stack);
      t_cwd = me.t_cwd;
      t_pcb = md_initpcb P.stack_size stack data1 data2 func;
    }
    let (spl, c) = splhigh P.spl_high s.cpu
    fork_sleepers p spl
        (record s { heap = update s.heap p (some t1); calls = share_cwd me.t_cwd s.calls; cpu = c })

  -- The error code, the new thread (`*ret`), and the state.
  unfoldable pub thread_fork : Memory → String → ℕ → ℕ → ℕ → Sys P → Outcome (ℕ × Option ℕ × Sys P)
  unfolding thread_create fork_stack
  thread_fork m name data1 data2 func s = thread_create m name s >>= λ r. elim r.0 [
    | none ↦ ok (enomem, none, r.1)
    | some p ↦ elim m.stack_at [
      | none ↦ ok (enomem, none, record (r.1) { heap = update (r.1).heap p none })
      | some stack ↦ fork_stack p stack data1 data2 func r.1
    ]
  ]

  -- `sleepers` and `zombies` are what `array_create` returns, and `none` where it fails.
  unfoldable pub thread_bootstrap :
      Option P.Array → Option P.Array → Memory → Sys P → Outcome (ℕ × Sys P)
  unfolding thread_create
  thread_bootstrap none zombies m s = panic panicked
  thread_bootstrap (some sl) none m s = panic panicked
  thread_bootstrap (some sl) (some z) m s =
      thread_create m "<boot/menu>" (record s { sleepers = sl; zombies = z }) >>= λ r. elim r.0 [
        | none ↦ panic panicked
        | some p ↦ deref ((r.1).heap p) >>= λ t. ok (
          p,
          record (r.1) {
            heap = update (r.1).heap p (some (record t { t_pcb = md_initpcb0 (r.1).curkstack }));
            curthread = some p;
            numthreads = 1;
          },
        )
      ]

  -- The rounds that are left, and the index.
  unfoldable pub killall_loop : ℕ → ℕ → Sys P → Outcome (Sys P)
  killall_loop zero i s = ok s
  killall_loop (suc n) i s = do
    t ← deref (s.heap (P.array_getguy s.sleepers i))
    killall_loop n (i + 1) (record s { calls = dropping t.t_name ∷ s.calls })

  unfoldable pub thread_killall : Sys P → Outcome (Sys P)
  unfolding killall_loop
  thread_killall s = do
    check (spl_raised s.cpu)
    s1 ← killall_loop (P.array_getnum s.sleepers) 0 s
    let (result, a) = P.array_setsize s1.sleepers 0
    check (result == 0)
    ok (record s1 { sleepers = a })

  unfoldable pub thread_panic : Sys P → Outcome (Sys P)
  unfolding thread_killall scheduler_killall
  thread_panic s = do check (spl_raised s.cpu); s1 ← thread_killall s; scheduler_killall P s1
