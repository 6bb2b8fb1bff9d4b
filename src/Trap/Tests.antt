-- ===== src/Trap/Tests.antt =====
-- A kernel whose state is its interrupt level, and what the theorems about system calls say of it.
use windborne.Base.{ℕ, ◌%◌, ◌/◌, ◌==◌, true, arith, some, none, [], ◌∷◌, ◌≡◌, refl, ok}
use windborne.Base.Int.{ℤ, pos, negsuc}
use windborne.Trap.Syscalls.{Trapframe, Handlers, mips_syscall}
use windborne.Spl.{splx}
use windborne.Trap.Interrupts.{Context}
use windborne.Platform.Bounded.{bounded}
use windborne.Thread.Example.{runner, three, open_cpu}
use windborne.Trap.Entering.{Entry, md_forkentry}
use windborne.Trap.Children.{Enters, md_forkentry_lem}
use windborne.Trap.Handler.{
  Exception, Port, Ending, back, mips_trap, check_stack, fault, page_fault, fatal, done,
}
use windborne.Trap.Return.{Ends, mips_trap-Ends, in_handler, mips_trap-mips_interrupt}
use windborne.Trap.Convention.{error, loads, Returns, mips_syscall_lem}

-- `sys_fork` fails with ENOMEM, and `sys_waitpid` finds nothing.
abbrev handlers : Handlers ℤ
handlers = record {
  curspl = λ k. k;
  sys_reboot = λ code k. ok (pos 1, k);
  write_char = λ buf i k. ok k;
  sys_getpid = λ k. ok (pos 0, k);
  sys_getppid = λ k. ok (pos 0, k);
  sys_execv = λ program args k. ok (pos 7, k);
  sys_fork = λ tf k. ok (negsuc 3, k);
  sys_waitpid = λ pid status options k. ok (pos 1, pos 0, k);
  sys__exit = λ code k. ok k;
  unknown = λ callno k. k;
}

abbrev frame : ℤ → Trapframe
frame callno = record {
  tf_v0 = callno;
  tf_a0 = 1;
  tf_a1 = 2;
  tf_a2 = 3;
  tf_a3 = pos 4;
  tf_epc = 4096;
}

-- A call of execv that fails with 7.
mips_syscall_lem_example :
    (tf' : Trapframe) × (mips_syscall handlers (pos 0) (frame (pos 1)) (pos 0) ≡ ok (tf', pos 0))
    × Returns (frame (pos 1)) (error (pos 7)) tf'
mips_syscall_lem_example =
    mips_syscall_lem handlers (frame (pos 1)) (pos 0) (pos 0) (error (pos 7)) (pos 0) refl
      (loads (pos 7) (pos 0) refl refl) refl

-- A kernel state that says whether the process has exited, with system calls as above.
abbrev calls : Handlers (Context ℕ)
calls = record {
  curspl = λ c. c.cpu.curspl;
  sys_reboot = λ code c. ok (pos 1, c);
  write_char = λ buf i c. ok c;
  sys_getpid = λ c. ok (pos 0, c);
  sys_getppid = λ c. ok (pos 0, c);
  sys_execv = λ program args c. ok (pos 7, c);
  sys_fork = λ tf c. ok (negsuc 3, c);
  sys_waitpid = λ pid status options c. ok (pos 1, pos 0, c);
  sys__exit = λ code c. ok c;
  unknown = λ callno c. c;
}

-- The exception code is what the cause register holds without its bits 8 and above.
abbrev port : Port ℕ
port = record {
  spl_high = 15;
  stack_size = 4096;
  code_of = λ cause. cause % 256 / 4;
  is_kernel_mode = λ status. status == 0;
  stack = λ k. some 8192;
  badfaultfunc = λ k. some 777;
  same_stack = λ address k. true;
  mips_lamebus_interrupt = λ c. ok c;
  mips_syscall = mips_syscall calls (pos 0);
  vm_fault = λ faulttype address c. ok (14, c);
  set_pros_exit = λ k. 1;
  thread_exit = λ c. ok c;
}

abbrev user : Context ℕ
user = record { cpu = record { status = 1; curspl = pos 0; in_interrupt = pos 0 }; kernel = 0 }

-- An exception by its cause and status registers.
abbrev exception : ℕ → ℕ → Exception
exception cause status = record {
  frame = frame (pos 10);
  tf_cause = cause;
  tf_status = status;
  tf_vaddr = 64;
  tf_sp = 4096;
  address = 9000;
}

-- A load from kernel mode that misses, and that `vm_fault` refuses, goes on in the function set.
abbrev missed : Ending ℕ
missed =
    back (record (exception 8 0) { frame = record (frame (pos 10)) { tf_epc = 777 } })
      (record user { cpu = record user.cpu { status = 0 } })

missed_test : mips_trap port (exception 8 0) user ≡ ok missed
unfolding mips_trap check_stack fault page_fault fatal done splx
missed_test = refl

mips_trap-Ends_example : Ends port (exception 8 0) user missed
mips_trap-Ends_example = mips_trap-Ends port (omega arith) (exception 8 0) user missed missed_test

on_stack : check_stack port (exception 1024 1) 0 ≡ ok tt
unfolding check_stack
on_stack = refl

mips_trap-mips_interrupt_example :
    (u : Context ℕ) × (mips_trap port (exception 1024 1) user ≡ ok (back (exception 1024 1) u))
    × (u.kernel ≡ 0)
    × (u.cpu.in_interrupt ≡ pos 0)
    × (u.cpu.curspl ≡ pos 0)
    × (u.cpu.status % 2 ≡ 0)
mips_trap-mips_interrupt_example =
    mips_trap-mips_interrupt port (omega arith) (exception 1024 1) user (in_handler port user) refl
      refl on_stack refl refl

-- Where everything is on the stack that it should be on.
abbrev roomy : Port (Entry bounded)
roomy = record {
  spl_high = 15;
  stack_size = 4096;
  code_of = λ cause. cause % 256 / 4;
  is_kernel_mode = λ status. status % 2 == 0;
  stack = λ k. some 8192;
  badfaultfunc = λ k. none;
  same_stack = λ a k. true;
  mips_lamebus_interrupt = λ s. ok s;
  mips_syscall = λ f s. ok (f, s);
  vm_fault = λ kind at s. ok (2, s);
  set_pros_exit = λ k. k;
  thread_exit = λ s. ok s;
}

abbrev forked : Entry bounded
forked = record {
  sys = record (three open_cpu) { full_process_table = none ∷ some 1 ∷ none ∷ [] };
  frame_at = λ p. exception 32 1;
  freed = [];
}

md_forkentry_lem_example :
    Enters roomy 9000 5000 2 1 runner forked (md_forkentry roomy 9000 5000 2 forked)
md_forkentry_lem_example =
    md_forkentry_lem roomy 9000 5000 2 1 runner forked (omega arith) refl refl (λ k e. refl)
