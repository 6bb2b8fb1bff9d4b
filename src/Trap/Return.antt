-- ===== src/Trap/Return.antt =====
-- How a trap of Projects/OS161/kern/mips/trap.c ends.
use windborne.Base.{
  ◌%◌, ◌<◌, ◌==◌, ◌≡◌, ◌≢◌, refl, ◌⊎◌, inl, inr, arith, ltb, true, ok, check, >>=-eq-ok, Bool-cases,
}
use windborne.Base.Int.{ℤ, pos}
use windborne.Spl.{is_zero, splx, splhigh, spl_raised}
use windborne.Trap.Syscalls.{Trapframe}
use windborne.Trap.Interrupts.{Context, mips_interrupt, has_bit}
use windborne.Trap.Handler.{
  Exception, Port, Ending, back, gone, ntrapcodes, done, check_stack, system_call, mips_trap,
}
use windborne.Trap.Faults.{Back, weaken, Resumes, Exits, done-Back, fault-Back}

module _ {K : Type 0} (H : Port K) where
  -- What the handler of system calls makes of the frame.
  abbrev pub IsServed : Exception → Context K → Exception → Type 0
  IsServed tf s tf' =
      (r : Trapframe × Context K) × (H.mips_syscall tf.frame s ≡ ok r)
      × (tf' ≡ record tf { frame = r.0 })

  -- The state in which an exception that is no interrupt is handled: at the level from which it
  -- came.
  abbrev pub entered : Context K → Context K
  entered s = record s { cpu = (splx s.cpu.curspl (record s.cpu { curspl = pos H.spl_high })).1 }

  -- How a trap ends that does not panic.
  abbrev pub Ends : Exception → Context K → Ending K → Type 0
  Ends tf s (back tf' s') =
      (s'.cpu.curspl ≡ s.cpu.curspl)
      × (s'.cpu.status % 2 ≡ 0)
      × (((H.code_of tf.tf_cause ≡ 0) × (tf' ≡ tf))
          ⊎ (((H.code_of tf.tf_cause ≡ 8) × IsServed tf (entered s) tf')
              ⊎ ((H.code_of tf.tf_cause ≢ 0)
                  × (H.code_of tf.tf_cause ≢ 8)
                  × Resumes H (H.code_of tf.tf_cause) tf (entered s) tf')))
  Ends tf s (gone s') =
      (H.code_of tf.tf_cause ≢ 0)
      × (H.code_of tf.tf_cause ≢ 8)
      × Exits H (H.code_of tf.tf_cause) tf (entered s) s'

  module _ (h : 0 < H.spl_high) where
    system_call-Back :
        (spl : ℤ) (tf : Exception) (s : Context K) (e : Ending K)
        → system_call H spl tf s ≡ ok e
        → Back H spl (IsServed tf s) (λ s'. ⊥) e
    unfolding system_call
    system_call-Back spl tf s e q =
        let entered = >>=-eq-ok (check (is_zero s.cpu.curspl)) _ q in
        let served = >>=-eq-ok (H.mips_syscall tf.frame s) _ entered.2 in
        weaken H spl (λ t. t ≡ record tf { frame = served.0.0 }) _ (λ s'. ⊥) (λ s'. ⊥) e
          (λ t same. (served.0, served.1, same)) (λ s' n. n) (done-Back H h spl _ _ e served.2)

    irq-Ends :
        (tf : Exception) (s : Context K) (e : Ending K)
        → H.code_of tf.tf_cause ≡ 0
        → Back H s.cpu.curspl (λ t. t ≡ tf) (λ s'. ⊥) e
        → Ends tf s e
    irq-Ends tf s (back tf' s') c k = (k.0, k.1, inl (c, k.2))
    irq-Ends tf s (gone s') c k = absurd k

    system_call-Ends :
        (tf : Exception) (s : Context K) (e : Ending K)
        → H.code_of tf.tf_cause ≡ 8
        → Back H s.cpu.curspl (IsServed tf (entered s)) (λ s'. ⊥) e
        → Ends tf s e
    system_call-Ends tf s (back tf' s') c k = (k.0, k.1, inr (inl (c, k.2)))
    system_call-Ends tf s (gone s') c k = absurd k

    fault-Ends :
        (tf : Exception) (s : Context K) (e : Ending K)
        → H.code_of tf.tf_cause ≢ 0
        → H.code_of tf.tf_cause ≢ 8
        → Back H s.cpu.curspl
            (Resumes H (H.code_of tf.tf_cause) tf (entered s))
            (Exits H (H.code_of tf.tf_cause) tf (entered s))
            e
        → Ends tf s e
    fault-Ends tf s (back tf' s') c d k = (k.0, k.1, inr (inr (c, d, k.2)))
    fault-Ends tf s (gone s') c d k = (c, d, k)

    -- A trap that does not panic, SPL_HIGH being positive. If it goes back, then at the interrupt
    -- level from which it came and with interrupts disabled until the return from the exception. An
    -- interrupt goes back to its frame, and a system call to what the handler of system calls made
    -- of its frame. A TLB exception goes back to its frame only where `vm_fault`, called at that
    -- level with its kind and address, has returned 0. Of an exception that nobody has handled the
    -- thread exits, marked as one that died, if it came from user mode; from kernel mode it goes
    -- back to its frame with the program counter at the function set for bad faults, which then is
    -- set. A bus error never gets that far.
    pub mips_trap-Ends :
        (tf : Exception) (s : Context K) (e : Ending K) → mips_trap H tf s ≡ ok e → Ends tf s e
    unfolding mips_trap
    mips_trap-Ends tf s e q =
        let known = >>=-eq-ok (check (ltb (H.code_of tf.tf_cause) ntrapcodes)) _ q in
        let on_stack = >>=-eq-ok (check_stack H tf s.kernel) _ known.2 in
        let code = H.code_of tf.tf_cause in
        elim (Bool-cases (code == 0)) [
          | inl irq ↦
              let handled =
                >>=-eq-ok (mips_interrupt H.mips_lamebus_interrupt tf.tf_cause _) _
                  (rw irq at on_stack.2) in
              irq-Ends tf s e (ground arith) (done-Back H h s.cpu.curspl tf handled.0 e handled.2)
          | inr other ↦ elim (Bool-cases (code == 8)) [
            | inl sys ↦
                system_call-Ends tf s e (ground arith)
                  (system_call-Back s.cpu.curspl tf _ e (rw (other, sys) at on_stack.2))
            | inr bad ↦
                fault-Ends tf s e (ground arith) (ground arith)
                  (fault-Back H h s.cpu.curspl code tf _ e (rw (other, bad) at on_stack.2))
          ]
        ]

  -- The state in which `mips_trap` calls the handler of the bus.
  abbrev pub in_handler : Context K → Context K
  in_handler s = record s { cpu = record s.cpu { curspl = pos H.spl_high; in_interrupt = pos 1 } }

  -- An interrupt of the bus, taken on the stack of the thread and handled there by a handler that returns: no assertion
  -- fails, that of `mips_interrupt` on the interrupt level included; the frame is untouched, the level and
  -- `in_interrupt` are what they were, interrupts are disabled, and the rest of the kernel is as the handler leaves it.
  -- SPL_HIGH is positive.
  pub mips_trap-mips_interrupt :
      0 < H.spl_high
      → (tf : Exception) (s t : Context K) → H.code_of tf.tf_cause ≡ 0
      → has_bit 10 tf.tf_cause ≡ true
      → check_stack H tf s.kernel ≡ ok tt
      → H.mips_lamebus_interrupt (in_handler s) ≡ ok t
      → H.same_stack tf.address t.kernel ≡ true
      → (u : Context K) × (mips_trap H tf s ≡ ok (back tf u))
        × (u.kernel ≡ t.kernel)
        × (u.cpu.in_interrupt ≡ s.cpu.in_interrupt)
        × (u.cpu.curspl ≡ s.cpu.curspl)
        × (u.cpu.status % 2 ≡ 0)
  unfolding mips_trap mips_interrupt done splhigh splx
  mips_trap-mips_interrupt h tf s t irq bus on_stack handled same =
      let raised : spl_raised (in_handler s).cpu ≡ true = ground arith in
      let closed = (splhigh H.spl_high (record t.cpu { in_interrupt = s.cpu.in_interrupt })).1 in
      (
        record t { cpu = record closed { curspl = s.cpu.curspl } },
        rw (irq, on_stack, raised, bus, handled, same) refl,
        refl,
        ground arith,
        refl,
        ground arith,
      )
