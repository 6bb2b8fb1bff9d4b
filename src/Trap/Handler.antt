-- ===== src/Trap/Handler.antt =====
-- `mips_trap`, `kill_curthread` and `mips_usermode` of Projects/OS161/kern/mips/trap.c.
use windborne.Base.{
  ℕ, ◌+◌, ◌==◌, ltb, Bool, true, false, Option, none, some, Outcome, ok, panic, panicked, check,
  ◌>>=◌, ◌>>◌, if◌then◌else◌,
}
use windborne.Base.Int.{ℤ, pos}
use windborne.Spl.{is_zero, splx, splhigh}
use windborne.Trap.Syscalls.{Trapframe}
use windborne.Trap.Interrupts.{Context, mips_interrupt}

-- A trap frame with what the handler reads of the exception, and its own address.
pub record Exception : Type 0 where
  pub frame : Trapframe
  pub tf_cause : ℕ
  pub tf_status : ℕ
  pub tf_vaddr : ℕ
  pub tf_sp : ℕ
  pub address : ℕ

-- What the handler calls, and the layout of the cause and status registers of machine headers.
-- `stack` and `badfaultfunc` are none where there is no current thread or the pointer is NULL.
pub record Port (K : Type 0) : Type 0 where
  pub spl_high : ℕ
  pub stack_size : ℕ
  pub code_of : ℕ → ℕ
  pub is_kernel_mode : ℕ → Bool
  pub stack : K → Option ℕ
  pub badfaultfunc : K → Option ℕ
  pub same_stack : ℕ → K → Bool
  pub mips_lamebus_interrupt : Context K → Outcome (Context K)
  pub mips_syscall : Trapframe → Context K → Outcome (Trapframe × Context K)
  pub vm_fault : ℕ → ℕ → Context K → Outcome (ℕ × Context K)
  pub set_pros_exit : K → K
  pub thread_exit : Context K → Outcome (Context K)

-- The trap returns with a frame, or its thread has exited and another one runs.
pub data Ending (K : Type 0) : Type 0 where
  back : Exception → Context K → Ending K
  gone : Context K → Ending K

-- NTRAPCODES; the codes are numbered as the names in the table are.
abbrev pub ntrapcodes : ℕ
ntrapcodes = 13

module _ {K : Type 0} (H : Port K) where
  -- A run of `thread_exit` ends in another thread, so that the panic behind its call is not reached.
  unfoldable pub kill_curthread : ℕ → Context K → Outcome (Context K)
  kill_curthread code s = do
    check (ltb code ntrapcodes)
    H.thread_exit (record s { kernel = H.set_pros_exit s.kernel })

  -- From the label `done` on.
  unfoldable pub done : ℤ → Exception → Context K → Outcome (Ending K)
  unfolding splhigh
  done savespl tf s = do
    let s1 = record s { cpu = record (splhigh H.spl_high s.cpu).1 { curspl = savespl } }
    check (H.same_stack tf.address s1.kernel)
    ok (back tf s1)

  -- Behind the `switch`: a fault that nobody has handled.
  unfoldable pub fatal : ℤ → ℕ → Exception → Context K → Outcome (Ending K)
  fatal savespl code tf s = elim (H.is_kernel_mode tf.tf_status) [
    | false ↦ kill_curthread code s >>= λ s1. ok (gone s1)
    | true ↦ elim (H.badfaultfunc s.kernel) [
      | none ↦ panic panicked
      | some f ↦ done savespl (record tf { frame = record tf.frame { tf_epc = f } }) s
    ]
  ]

  -- A case of the `switch` that calls `vm_fault`.
  unfoldable pub page_fault : ℤ → ℕ → ℕ → Exception → Context K → Outcome (Ending K)
  page_fault savespl faulttype code tf s = H.vm_fault faulttype tf.tf_vaddr s >>= λ r.
      if r.0 == 0 then done savespl tf r.1 else fatal savespl code tf r.1

  unfoldable pub fault : ℤ → ℕ → Exception → Context K → Outcome (Ending K)
  fault savespl code tf s =
      if code == 1
      then page_fault savespl 2 code tf s
      else if code == 2
      then page_fault savespl 0 code tf s
      else if code == 3
      then page_fault savespl 1 code tf s
      else if code == 6
      then panic panicked
      else if code == 7
      then panic panicked
      else fatal savespl code tf s

  unfoldable pub check_stack : Exception → K → Outcome (Unit {0})
  check_stack tf k = elim (H.stack k) [
    | none ↦ ok tt
    | some t_stack ↦
        check (ltb t_stack tf.address) >> check (ltb tf.address (t_stack + H.stack_size))
  ]

  -- A system call, entered with the caller's interrupt level.
  unfoldable pub system_call : ℤ → Exception → Context K → Outcome (Ending K)
  system_call savespl tf s = do
    check (is_zero s.cpu.curspl)
    r ← H.mips_syscall tf.frame s
    done savespl (record tf { frame = r.0 }) r.1

  unfoldable pub mips_trap : Exception → Context K → Outcome (Ending K)
  mips_trap tf s = do
    let savespl = s.cpu.curspl
    let s1 = record s { cpu = record s.cpu { curspl = pos H.spl_high } }
    let code = H.code_of tf.tf_cause
    check (ltb code ntrapcodes)
    check_stack tf s1.kernel
    if code == 0
        then (mips_interrupt H.mips_lamebus_interrupt tf.tf_cause s1 >>= λ s2. done savespl tf s2)
        else let s2 = record s1 { cpu = (splx savespl s1.cpu).1 } in
          if code == 8 then system_call savespl tf s2 else fault savespl code tf s2

  -- Up to the call of `asm_usermode`.
  unfoldable pub mips_usermode : Exception → Context K → Outcome (Exception × Context K)
  unfolding splhigh
  mips_usermode tf s = do
    let s1 = record s { cpu = record (splhigh H.spl_high s.cpu).1 { curspl = pos 0 } }
    check (H.same_stack tf.address s1.kernel)
    ok (tf, s1)
