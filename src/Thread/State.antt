-- ===== src/Thread/State.antt =====
-- Projects/OS161/kern/include/thread.h and the globals of kern/thread/thread.c, scheduler.c and
-- kern/mips/pcb.c. A thread structure is named by its address; `heap` holds the structures that
-- have been allocated and not freed. Calls that leave these files are recorded in `calls`.
use windborne.Base.{
  ℕ, ◌==◌, Bool, true, false, ◌&&◌, List, Option, none, some, String, if◌then◌else◌,
}
use windborne.Base.Int.{ℤ}
use windborne.Spl.{Cpu}
use windborne.Platform.{Platform}

-- Where a thread goes on when it is switched to: at `mi_threadstart` with its three arguments, or
-- behind the `mi_switch` of its `thread_yield` (with the local `spl`), `thread_sleep` or
-- `thread_exit`.
pub data Frame : Type 0 where
  threadstart : (data1 data2 func : ℕ) → Frame
  yielding : (spl : ℤ) → Frame
  sleeping exiting : Frame

-- `struct pcb`
pub record Pcb : Type 0 where
  pub pcb_switchstack : Frame
  pub pcb_kstack : ℕ
  pub pcb_ininterrupt : ℤ
  pub pcb_badfaultfunc : Option ℕ

-- A kernel stack: its lowest address, and the four bytes at its bottom end.
pub record Stack : Type 0 where
  pub base : ℕ
  pub byte0 : ℕ
  pub byte1 : ℕ
  pub byte2 : ℕ
  pub byte3 : ℕ

-- `none` is NULL.
pub record Thread : Type 0 where
  pub t_pcb : Pcb
  pub t_name : String
  pub t_sleepaddr : Option ℕ
  pub t_stack : Option Stack
  pub pid : ℤ
  pub exit_status : ℤ
  pub parent : Option ℕ
  pub pros_exit : ℕ
  pub numchilds : ℕ
  pub t_vmspace : Option ℕ
  pub t_cwd : Option ℕ

pub data ThreadState : Type 0 where
  s_run s_ready s_sleep s_zomb : ThreadState

pub data Call : Type 0 where
  vop_incref vop_decref as_activate as_destroy : ℕ → Call
  run : (data1 data2 func : ℕ) → Call
  dropping : String → Call

pub record Sys (P : Platform) : Type 0 where
  pub cpu : Cpu
  pub heap : ℕ → Option Thread
  pub curthread : Option ℕ
  pub sleepers : P.Array
  pub zombies : P.Array
  pub runqueue : P.Queue
  pub numthreads : ℕ
  pub numprocesses : ℕ
  pub full_process_table : List (Option ℕ)
  pub curkstack : ℕ
  pub calls : List Call

-- A store into the heap, and its release.
abbrev pub update : (ℕ → Option Thread) → ℕ → Option Thread → ℕ → Option Thread
update h p t q = if p == q then t else h q

-- The four assertions on the magic number, which hold of a thread without a stack of its own.
abbrev pub magic_ok : Option Stack → Bool
magic_ok none = true
magic_ok (some k) = k.byte0 == 0xae && (k.byte1 == 0x11 && (k.byte2 == 0xda && k.byte3 == 0x33))

-- `t->t_sleepaddr == addr`
abbrev pub sleeps_at : ℕ → Option ℕ → Bool
sleeps_at addr none = false
sleeps_at addr (some a) = a == addr
