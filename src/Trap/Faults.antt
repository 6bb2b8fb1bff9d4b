-- ===== src/Trap/Faults.antt =====
-- How an exception that `vm_fault` or nobody handles ends in Projects/OS161/kern/mips/trap.c.
use windborne.Base.{
  ℕ, ◌%◌, ◌<◌, ◌==◌, ◌≡◌, ◌≢◌, refl, ap, ◌∙◌, subst, Option, none, if◌then◌else◌, ◌⊎◌, inl, inr,
  arith, ltb, true, false, some, ok, ok_inj, panic, panicked, check, >>=-eq-ok, Bool-cases,
  Option-cases,
}
use windborne.Base.Int.{ℤ}
use windborne.Spl.{Cpu, splx, splhigh}
use windborne.Trap.Interrupts.{Context}
use windborne.Trap.Handler.{
  Exception, Port, Ending, back, gone, ntrapcodes, kill_curthread, done, fatal, page_fault, fault,
}

-- The kind of fault that an exception code is for `vm_fault`: VM_FAULT_READONLY is 2,
-- VM_FAULT_READ is 0, VM_FAULT_WRITE is 1.
abbrev pub kind_of : ℕ → Option ℕ
kind_of code =
    if code == 1 then some 2 else if code == 2 then some 0 else if code == 3 then some 1 else none

module _ {K : Type 0} (H : Port K) where
  -- A return at an interrupt level, with interrupts disabled, and what holds of the frame or of the
  -- state in which another thread runs.
  abbrev pub Back : ℤ → (Exception → Type 0) → (Context K → Type 0) → Ending K → Type 0
  Back spl R N (back tf s) = (s.cpu.curspl ≡ spl) × (s.cpu.status % 2 ≡ 0) × R tf
  Back spl R N (gone s) = N s

  pub weaken :
      (spl : ℤ) (R R' : Exception → Type 0) (N N' : Context K → Type 0) (e : Ending K)
      → ((tf : Exception) → R tf → R' tf)
      → ((s : Context K) → N s → N' s)
      → Back spl R N e
      → Back spl R' N' e
  weaken spl R R' N N' (back tf s) f g k = (k.0, k.1, f tf k.2)
  weaken spl R R' N N' (gone s) f g k = g s k

  -- In kernel mode the frame goes on in the function that is set for bad faults.
  abbrev pub Recovers : Context K → Exception → Exception → Type 0
  Recovers k tf tf' =
      (f : ℕ) × (H.badfaultfunc k.kernel ≡ some f)
      × (H.is_kernel_mode tf.tf_status ≡ true)
      × (tf' ≡ record tf { frame = record tf.frame { tf_epc = f } })

  -- In user mode the thread exits.
  abbrev pub Dies : Context K → Exception → Context K → Type 0
  Dies k tf s' =
      (H.is_kernel_mode tf.tf_status ≡ false)
      × (H.thread_exit (record k { kernel = H.set_pros_exit k.kernel }) ≡ ok s')

  -- `vm_fault` refuses, and leaves `k`.
  abbrev pub Refuses : ℕ → Exception → Context K → Context K → Type 0
  Refuses kind tf s k = (e : ℕ) × (e ≢ 0) × (H.vm_fault kind tf.tf_vaddr s ≡ ok (e, k))

  -- Nobody has handled the exception, which leaves `k`: `vm_fault` has refused, or the exception is
  -- not for it. Bus errors, 6 and 7, are no such exceptions.
  abbrev pub Unhandled : ℕ → Exception → Context K → Context K → Type 0
  Unhandled code tf s k =
      ((kind : ℕ) × (kind_of code ≡ some kind) × Refuses kind tf s k)
      ⊎ ((kind_of code ≡ none) × (code ≢ 6) × (code ≢ 7) × (k ≡ s))

  -- The frame goes on where the trap happened, `vm_fault` having returned 0, or it recovers.
  abbrev pub Resumes : ℕ → Exception → Context K → Exception → Type 0
  Resumes code tf s tf' =
      ((kind : ℕ) × (k : Context K) × (kind_of code ≡ some kind)
        × (H.vm_fault kind tf.tf_vaddr s ≡ ok (0, k))
        × (tf' ≡ tf))
      ⊎ ((k : Context K) × Unhandled code tf s k × Recovers k tf tf')

  abbrev pub Exits : ℕ → Exception → Context K → Context K → Type 0
  Exits code tf s s' = (k : Context K) × Unhandled code tf s k × Dies k tf s'

  shut : (n : ℕ) (c : Cpu) → 0 < n → (splhigh n c).1.status % 2 ≡ 0
  unfolding splhigh splx
  shut n c h = ground arith

  module _ (h : 0 < H.spl_high) where
    pub done-Back :
        (spl : ℤ) (tf : Exception) (s : Context K) (e : Ending K)
        → done H spl tf s ≡ ok e
        → Back spl (λ t. t ≡ tf) (λ s'. ⊥) e
    unfolding done
    done-Back spl tf s e q =
        let s1 : Context K = record s {
          cpu = record (splhigh H.spl_high s.cpu).1 { curspl = spl };
        } in
        let k : Back spl (λ t. t ≡ tf) (λ s'. ⊥) (back tf s1) =
          (refl, shut H.spl_high s.cpu h, refl) in
        let passed =
          >>=-eq-ok (check (H.same_stack tf.address s1.kernel)) (λ _. ok (back tf s1)) q in
        subst (Back spl (λ t. t ≡ tf) (λ s'. ⊥)) (ok_inj passed.2) k

    kill_lem :
        (code : ℕ) (k s' : Context K)
        → kill_curthread H code k ≡ ok s'
        → H.thread_exit (record k { kernel = H.set_pros_exit k.kernel }) ≡ ok s'
    unfolding kill_curthread
    kill_lem code k s' q = (>>=-eq-ok (check (ltb code ntrapcodes)) _ q).2

    fatal-Back :
        (spl : ℤ) (code : ℕ) (tf : Exception) (k : Context K) (e : Ending K)
        → fatal H spl code tf k ≡ ok e
        → Back spl (Recovers k tf) (Dies k tf) e
    unfolding fatal
    fatal-Back spl code tf k e q = elim (Bool-cases (H.is_kernel_mode tf.tf_status)) [
      | inl kernel ↦ elim (Option-cases (H.badfaultfunc k.kernel)) [
        | inl unset ↦ let never : panic panicked ≡ ok e = rw (fatal, kernel, unset) at q in cc
        | inr (f, set) ↦
            let tf' = record tf { frame = record tf.frame { tf_epc = f } } in
            weaken spl (λ t. t ≡ tf') (Recovers k tf) (λ s'. ⊥) (Dies k tf) e
              (λ t same. (f, set, kernel, same)) (λ s' n. absurd n)
              (done-Back spl tf' k e (rw (fatal, kernel, set) at q))
      ]
      | inr user ↦
          let exited =
            >>=-eq-ok (kill_curthread H code k) (λ s1. ok (gone s1)) (rw (fatal, user) at q) in
          subst (Back spl (Recovers k tf) (Dies k tf)) (ok_inj exited.2)
            (user, kill_lem code k exited.0 exited.1)
    ]

    page_fault-Back :
        (spl : ℤ) (kind code : ℕ) (tf : Exception) (s : Context K) (e : Ending K)
        → kind_of code ≡ some kind
        → page_fault H spl kind code tf s ≡ ok e
        → Back spl (Resumes code tf s) (Exits code tf s) e
    unfolding page_fault
    page_fault-Back spl kind code tf s e known q =
        let ((result, k), answers, rest) = >>=-eq-ok (H.vm_fault kind tf.tf_vaddr s) _ q in
        elim (Bool-cases (result == 0)) [
          | inl mapped ↦
              let zero_result : result ≡ 0 = ground arith in
              weaken spl (λ t. t ≡ tf) (Resumes code tf s) (λ s'. ⊥) (Exits code tf s) e
                (λ t same. inl (kind, k, known, answers ∙ ap (λ n. ok (n, k)) zero_result, same))
                (λ s' n. absurd n) (done-Back spl tf k e (rw mapped at rest))
          | inr failed ↦
              let refused : Unhandled code tf s k =
                inl (kind, known, (result, ground arith, answers)) in
              weaken spl (Recovers k tf) (Resumes code tf s) (Dies k tf) (Exits code tf s) e
                (λ t r. inr (k, refused, r)) (λ s' d. (k, refused, d))
                (fatal-Back spl code tf k e (rw failed at rest))
        ]

    pub fault-Back :
        (spl : ℤ) (code : ℕ) (tf : Exception) (s : Context K) (e : Ending K)
        → fault H spl code tf s ≡ ok e
        → Back spl (Resumes code tf s) (Exits code tf s) e
    unfolding fault
    fault-Back spl code tf s e q = elim (Bool-cases (code == 1)) [
      | inl one ↦ page_fault-Back spl 2 code tf s e (rw one refl) (rw one at q)
      | inr c1 ↦ elim (Bool-cases (code == 2)) [
        | inl two ↦ page_fault-Back spl 0 code tf s e (rw (c1, two) refl) (rw (c1, two) at q)
        | inr c2 ↦ elim (Bool-cases (code == 3)) [
          | inl three ↦
              page_fault-Back spl 1 code tf s e (rw (c1, c2, three) refl) (rw (c1, c2, three) at q)
          | inr c3 ↦ other_fault c1 c2 c3 (Bool-cases (code == 6)) (Bool-cases (code == 7))
        ]
      ]
    ]
      where
        other_fault :
            (code == 1) ≡ false
            → (code == 2) ≡ false
            → (code == 3) ≡ false
            → ((code == 6) ≡ true) ⊎ ((code == 6) ≡ false)
            → ((code == 7) ≡ true) ⊎ ((code == 7) ≡ false)
            → Back spl (Resumes code tf s) (Exits code tf s) e
        other_fault c1 c2 c3 (inl six) c7 =
            let never : panic panicked ≡ ok e = rw (c1, c2, c3, six) at q in cc
        other_fault c1 c2 c3 (inr c6) (inl seven) =
            let never : panic panicked ≡ ok e = rw (c1, c2, c3, c6, seven) at q in cc
        other_fault c1 c2 c3 (inr c6) (inr c7) =
            let unknown : Unhandled code tf s s =
              inr (rw (c1, c2, c3) refl, ground arith, ground arith, refl) in
            weaken spl (Recovers s tf) (Resumes code tf s) (Dies s tf) (Exits code tf s) e
              (λ t r. inr (s, unknown, r)) (λ s' d. (s, unknown, d))
              (fatal-Back spl code tf s e (rw (c1, c2, c3, c6, c7) at q))
