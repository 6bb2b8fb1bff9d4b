-- ===== src/Thread/Switch.antt =====
-- The context switch: `thread_destroy`, `exorcise`, `mi_switch`, `thread_exit`, `thread_yield`,
-- `thread_sleep` and `mi_threadstart` of Projects/OS161/kern/thread/thread.c, and `md_switch` of
-- kern/mips/pcb.c.
--
-- Code behind `md_switch` runs on the stack of the thread that is switched to, so `mi_switch` is
-- given the frame in which the old thread is left, and goes on in the frame of the new one. A run
-- ends where the new thread returns to the caller of the function that had given up the processor.
use windborne.Base.{
  ℕ, zero, suc, ◌+◌, ◌-◌, ◌==◌, ltb, not, Bool, true, false, List, ◌∷◌, Option, none, some, Outcome,
  ok, panic, panicked, check, deref, ◌>>=◌, ◌>>◌, if◌then◌else◌,
}
use windborne.Spl.{is_zero, spl_raised, splx, splhigh, spl0}
use windborne.Platform.{Platform}
use windborne.Thread.State.{
  Thread, Frame, threadstart, yielding, sleeping, exiting, ThreadState, s_ready, s_sleep, s_zomb,
  Sys, update, magic_ok, vop_decref, as_activate, as_destroy, run,
}
use windborne.Thread.Scheduler.{make_runnable, scheduler}

abbrev is_null : Option ℕ → Bool
is_null none = true
is_null (some p) = false

-- `p != q` for a pointer `p` that is not NULL.
abbrev pub differs : ℕ → Option ℕ → Bool
differs p none = true
differs p (some q) = not (p == q)

-- `mi_switch` reaches its final assertion in no other state.
abbrev is_zomb : ThreadState → Bool
is_zomb s_zomb = true
is_zomb _ = false

module _ (P : Platform) where
  -- Frees the structure; its stack and its name go with it.
  unfoldable pub thread_destroy : ℕ → Sys P → Outcome (Sys P)
  thread_destroy z s = do
    check (differs z s.curthread)
    t ← deref (s.heap z)
    check (is_null t.t_vmspace)
    check (is_null t.t_cwd)
    ok (record s { heap = update s.heap z none })

  -- The rounds that are left, and the index.
  unfoldable pub exorcise_loop : ℕ → ℕ → Sys P → Outcome (Sys P)
  unfolding thread_destroy
  exorcise_loop zero i s = ok s
  exorcise_loop (suc n) i s =
      check (differs (P.array_getguy s.zombies i) s.curthread)
      >> (thread_destroy (P.array_getguy s.zombies i) s >>= exorcise_loop n (i + 1))

  unfoldable pub exorcise : Sys P → Outcome (Sys P)
  unfolding exorcise_loop
  exorcise s = do
    check (spl_raised s.cpu)
    s ← exorcise_loop (P.array_getnum s.zombies) 0 s
    let (code, z) = P.array_setsize s.zombies 0
    check (code == 0)
    ok (record s { zombies = z })

  -- `if (curthread->t_vmspace) as_activate(curthread->t_vmspace);`
  unfoldable pub activate : Sys P → Outcome (Sys P)
  activate s = do
    cur ← deref s.curthread
    t ← deref (s.heap cur)
    elim t.t_vmspace [ none ↦ ok s | some v ↦ ok (record s { calls = as_activate v ∷ s.calls }) ]

  -- `thread_yield` and `thread_sleep` behind their call of `mi_switch`, on the current thread.
  unfoldable pub finish : Frame → Sys P → Outcome (Sys P)
  unfolding splx
  finish (threadstart d1 d2 f) s = ok s
  finish (yielding spl) s = ok (record s { cpu = (splx spl s.cpu).1 })
  finish sleeping s = do
    cur ← deref s.curthread
    t ← deref (s.heap cur)
    ok (record s { heap = update s.heap cur (some (record t { t_sleepaddr = none })) })
  finish exiting s = panic panicked

  -- `mi_threadstart` up to its call of `func`, which is recorded.
  unfoldable pub mi_threadstart : ℕ → ℕ → ℕ → Sys P → Outcome (Sys P)
  unfolding activate spl0
  mi_threadstart data1 data2 func s = do
    s ← activate s
    ok (record s { cpu = (spl0 s.cpu).1; calls = run data1 data2 func ∷ s.calls })

  -- The end of `mi_switch`, and what the thread does next.
  unfoldable pub resume : Frame → Sys P → Outcome (Sys P)
  unfolding mi_threadstart exorcise activate finish
  resume (threadstart d1 d2 f) s = mi_threadstart d1 d2 f s
  resume (yielding spl) s = do s ← exorcise s; s ← activate s; finish (yielding spl) s
  resume sleeping s = do s ← exorcise s; s ← activate s; finish sleeping s
  resume exiting s = do s ← exorcise s; s ← activate s; finish exiting s

  -- The globals that belong to a thread are exchanged, and the old thread is left in its frame.
  unfoldable pub md_switch : ℕ → ℕ → Frame → Sys P → Outcome (Sys P)
  unfolding resume
  md_switch old nu frame s = if old == nu then resume frame s else do
    t ← deref (s.heap old)
    n ← deref (s.heap nu)
    let pcb = record (t.t_pcb) {
      pcb_kstack = s.curkstack;
      pcb_ininterrupt = s.cpu.in_interrupt;
      pcb_switchstack = frame;
    }
    resume n.t_pcb.pcb_switchstack (record s {
      heap = update s.heap old (some (record t { t_pcb = pcb }));
      curkstack = n.t_pcb.pcb_kstack;
      cpu = record (s.cpu) { in_interrupt = n.t_pcb.pcb_ininterrupt };
    })

  -- Puts the current thread on its list; the result is the code that is asserted to be 0.
  unfoldable pub stash : ThreadState → ℕ → Sys P → Outcome (ℕ × Sys P)
  unfolding make_runnable
  stash s_ready cur s = make_runnable P cur s
  stash s_sleep cur s =
      let (code, a) = P.array_add s.sleepers cur in ok (code, record s { sleepers = a })
  stash next cur s = do
    check (is_zomb next)
    let (code, a) = P.array_add s.zombies cur
    ok (code, record s { zombies = a })

  -- `wakes`: the interrupts that come while the scheduler idles. With no current thread `mi_switch`
  -- returns at once, and its caller goes on.
  unfoldable pub mi_switch : List ℕ → ThreadState → Frame → Sys P → Outcome (Sys P)
  unfolding stash scheduler md_switch finish
  mi_switch wakes next frame s = do
    check (spl_raised s.cpu)
    elim s.curthread [
      | none ↦ finish frame s
      | some cur ↦ do
        t ← deref (s.heap cur)
        check (magic_ok t.t_stack)
        (code, s1) ← stash next cur (record s { curthread = none })
        check (code == 0)
        (nu, s2) ← scheduler P wakes s1
        md_switch cur nu frame (record s2 { curthread = some nu })
    ]

  unfoldable pub thread_yield : List ℕ → Sys P → Outcome (Sys P)
  unfolding splhigh
  thread_yield wakes s =
      let (spl, c) = splhigh P.spl_high s.cpu in
      mi_switch wakes s_ready (yielding spl) (record s { cpu = c })

  unfoldable pub thread_sleep : List ℕ → ℕ → Sys P → Outcome (Sys P)
  thread_sleep wakes addr s = do
    check (is_zero s.cpu.in_interrupt)
    cur ← deref s.curthread
    t ← deref (s.heap cur)
    mi_switch wakes s_sleep sleeping
        (record s { heap = update s.heap cur (some (record t { t_sleepaddr = some addr })) })

  unfoldable pub exit_vmspace : ℕ → Thread → Sys P → Sys P
  exit_vmspace cur t s = elim t.t_vmspace [
    | none ↦ s
    | some v ↦ record s {
      heap = update s.heap cur (some (record t { t_vmspace = none }));
      calls = as_destroy v ∷ s.calls;
    }
  ]

  unfoldable pub exit_cwd : ℕ → Thread → Sys P → Sys P
  exit_cwd cur t s = elim t.t_cwd [
    | none ↦ s
    | some v ↦ record s {
      heap = update s.heap cur (some (record t { t_cwd = none }));
      calls = vop_decref v ∷ s.calls;
    }
  ]

  -- `thread_exit` behind its `splhigh`.
  unfoldable pub exit_thread : List ℕ → ℕ → Thread → Sys P → Outcome (Sys P)
  unfolding exit_vmspace exit_cwd
  exit_thread wakes cur t s = do
    let s1 = exit_vmspace cur t s
    t1 ← deref (s1.heap cur)
    let s2 = exit_cwd cur t1 s1
    check (ltb 0 s2.numthreads)
    mi_switch wakes s_zomb exiting (record s2 { numthreads = s2.numthreads - 1 })

  unfoldable pub thread_exit : List ℕ → Sys P → Outcome (Sys P)
  unfolding splhigh
  thread_exit wakes s = do
    cur ← deref s.curthread
    t ← deref (s.heap cur)
    check (magic_ok t.t_stack)
    exit_thread wakes cur t (record s { cpu = (splhigh P.spl_high s.cpu).1 })
