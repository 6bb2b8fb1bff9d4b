-- ===== src/Memory/Faults.antt =====
-- What `vm_fault` and `as_activate` of Projects/OS161/kern/mips/dumbvm.c do to the TLB.
use windborne.Base.{
  ℕ, zero, suc, ◌+◌, ◌<◌, ◌≤◌, ◌≡◌, ◌≢◌, refl, sym, ap, ◌∙◌, arith, true, false, ◌==◌, ◌⊎◌, inl,
  inr, Bool-cases, ℕ_discrete, Option, some, none, Outcome, ok, panic, assertion, ltb, check, ◌>>◌,
  Option-cases,
}
use windborne.Base.Int.{ℤ}
use windborne.Spl.{splx, splhigh}
use windborne.Spl.Nesting.{IsConsistent, splx-splhigh}
use windborne.Memory.Machine.{Machine, Laws, AddrSpace, Entry, Vm, write}
use windborne.Memory.AddrSpaces.{activate_loop, as_activate}
use windborne.Memory.Fault.{
  translate, is_page, is_set_up, tlb_loop, fault_at, vm_fault, efault, vm_fault_readonly,
}

not_readonly : (n : ℕ) → n < 2 → (n == vm_fault_readonly) ≡ false
not_readonly n h = ground arith

known_type : (n : ℕ) → n < 2 → ltb n 2 ≡ true
known_type n h = ground arith

module _ (M : Machine) where
  abbrev pub IsUsed : Vm → ℕ → Type 0
  IsUsed v j = M.tlblo_is_valid ((v.tlb j).elo) ≡ true

  -- The state with a translation in slot `j`.
  abbrev pub mapped : ℕ → ℕ → ℕ → Vm → Vm
  mapped j fa paddr v = record v {
    tlb = write v.tlb j (record { ehi = fa; elo = M.tlblo_mapped paddr });
  }

  -- The slots from `i` on are all used, or the first that is free takes the translation.
  abbrev pub Fills : ℕ → ℕ → ℕ → ℕ → ℤ → Vm → ℕ × Vm → Type 0
  Fills n i fa paddr spl v o =
      (((j : ℕ) → i ≤ j → j < i + n → IsUsed v j)
        × (o ≡ (efault, record v { cpu = (splx spl v.cpu).1 })))
      ⊎ ((j : ℕ) × (i ≤ j)
          × (j < i + n)
          × (M.tlblo_is_valid ((v.tlb j).elo) ≡ false)
          × ((k : ℕ) → i ≤ k → k < j → IsUsed v k)
          × (o ≡ (0, record (mapped j fa paddr v) { cpu = (splx spl v.cpu).1 })))

  next-IsUsed : (v : Vm) (i j : ℕ) → IsUsed v i → ((i < j) → IsUsed v j) → i ≤ j → IsUsed v j
  next-IsUsed v i j u rest h = elim (ℕ_discrete i j) [
    | yes same ↦ ap (λ x. M.tlblo_is_valid ((v.tlb x).elo)) (sym same) ∙ u
    | no other ↦ rest (ground arith)
  ]

  loop-Fills :
      (n i fa paddr : ℕ) (spl : ℤ) (v : Vm)
      → Fills n i fa paddr spl v (tlb_loop M n i fa paddr spl v)
  unfolding tlb_loop
  loop-Fills zero i fa paddr spl v = inl (λ j a b. absurd (omega arith), refl)
  loop-Fills (suc n) i fa paddr spl v = elim (Bool-cases (M.tlblo_is_valid ((v.tlb i).elo))) [
    | inl used ↦ elim (loop-Fills n (i + 1) fa paddr spl v) [
      | inl (all, full) ↦
          inl (
            λ j a b. next-IsUsed v i j used (λ h. all j (omega arith) (omega arith)) a,
            rw used full,
          )
      | inr (j, a, b, free, before, done) ↦ inr (
        j,
        omega arith,
        omega arith,
        free,
        λ k c d. next-IsUsed v i k used (λ h. before k (omega arith) d) c,
        rw used done,
      )
    ]
    | inr free ↦
        inr (i, omega arith, omega arith, free, λ k c d. absurd (omega arith), rw free refl)
  ]

  -- An invalid entry, as `as_activate` writes it to slot `j`.
  abbrev pub blank : ℕ → Entry
  blank j = record { ehi = M.tlbhi_invalid j; elo = M.tlblo_invalid }

  activate_entry :
      (n i j : ℕ) (v : Vm)
      → ((i ≤ j) × (j < i + n) × ((activate_loop M n i v).tlb j ≡ blank j))
        ⊎ (((j < i) ⊎ (i + n ≤ j)) × ((activate_loop M n i v).tlb j ≡ v.tlb j))
  unfolding activate_loop
  activate_entry zero i j v = inr (ground arith, refl)
  activate_entry (suc n) i j v =
      elim (activate_entry n (i + 1) j (record v { tlb = write v.tlb i (blank i) })) [
        | inl (a, b, e) ↦ inl (omega arith, omega arith, e)
        | inr (outer, e) ↦ elim (ℕ_discrete i j) [
          | yes same ↦ inl (omega arith, omega arith, e ∙ written v.tlb i j same)
          | no other ↦ inr (ground arith, e ∙ kept_entry v.tlb i j (blank i) other)
        ]
      ]
    where
      written : (f : ℕ → Entry) (a b : ℕ) → a ≡ b → write f a (blank a) b ≡ blank b
      written f a b e = ground arith

      kept_entry : (f : ℕ → Entry) (a b : ℕ) (x : Entry) → a ≢ b → write f a x b ≡ f b
      kept_entry f a b x e = ground arith

  loop_rest :
      (n i : ℕ) (v : Vm)
      → ((activate_loop M n i v).cpu ≡ v.cpu) × ((activate_loop M n i v).ram ≡ v.ram)
  unfolding activate_loop
  loop_rest zero i v = (refl, refl)
  loop_rest (suc n) i v = loop_rest n (i + 1) (record v { tlb = write v.tlb i (blank i) })

module _ (M : Machine) (L : Laws M) (v : Vm) (k : IsConsistent v.cpu) where
  restored : (splx v.cpu.curspl (splhigh M.spl_high v.cpu).1).1 ≡ v.cpu
  unfolding splhigh
  restored = (splx-splhigh M.spl_high v.cpu L.spl_high_pos k).2

  activate_parts : ((as_activate M v).cpu ≡ v.cpu) × ((as_activate M v).ram ≡ v.ram)
  unfolding as_activate splhigh
  activate_parts =
      let high = record v { cpu = (splhigh M.spl_high v.cpu).1 } in
      let (c, r) = loop_rest M M.num_tlb 0 high in
      (ap (λ x. (splx v.cpu.curspl x).1) c ∙ restored, r)

  activate_tlb :
      (j : ℕ)
      → (as_activate M v).tlb j
        ≡ (activate_loop M M.num_tlb 0 (record v { cpu = (splhigh M.spl_high v.cpu).1 })).tlb j
  unfolding as_activate splhigh
  activate_tlb j = refl

  -- With the interrupt level and the enable bit in step, `as_activate` writes the invalid entry to
  -- every slot of the TLB, so that no translation of another address space is left; memory and
  -- interrupt level are what they were.
  pub as_activate_lem :
      ((j : ℕ) → j < M.num_tlb → (as_activate M v).tlb j ≡ blank M j)
      × ((as_activate M v).cpu ≡ v.cpu)
      × ((as_activate M v).ram ≡ v.ram)
  as_activate_lem = (λ j h. activate_tlb j ∙ entry j h, activate_parts.0, activate_parts.1)
    where
      entry :
          (j : ℕ)
          → j < M.num_tlb
          → (activate_loop M M.num_tlb 0 (record v { cpu = (splhigh M.spl_high v.cpu).1 })).tlb j
            ≡ blank M j
      entry j h =
          elim (activate_entry M M.num_tlb 0 j (record v { cpu = (splhigh M.spl_high v.cpu).1 })) [
            | inl (a, b, e) ↦ e
            | inr (outer, e) ↦ absurd (omega arith)
          ]

  module _ (faultaddress faulttype : ℕ) (space : AddrSpace) (good : is_set_up M space ≡ ok tt)
      (t : faulttype < 2) where
    abbrev page : ℕ
    page = M.page_frame faultaddress

    -- The end of a fault on an address space that is set up.
    abbrev pub Faults : Outcome (ℕ × Vm) → Type 0
    Faults o =
        ((translate M space page ≡ none) × (o ≡ ok (efault, v)))
        ⊎ ((paddr : ℕ) × (translate M space page ≡ some paddr)
            × (((is_page M paddr ≡ false) × (o ≡ panic assertion))
                ⊎ (((j : ℕ) → j < M.num_tlb → IsUsed M v j) × (o ≡ ok (efault, v)))
                ⊎ ((j : ℕ) × (j < M.num_tlb)
                    × (M.tlblo_is_valid ((v.tlb j).elo) ≡ false)
                    × ((i : ℕ) → i < j → IsUsed M v i)
                    × (o ≡ ok (0, mapped M j page paddr v)))))

    abbrev high : Vm
    high = record v { cpu = (splhigh M.spl_high v.cpu).1 }

    fault_steps :
        vm_fault M faulttype faultaddress (some space) v
        ≡ fault_at M (some space) page v.cpu.curspl high
    unfolding vm_fault splhigh
    fault_steps = rw (vm_fault, not_readonly faulttype t, known_type faulttype t) refl

    at_steps :
        (o : Option ℕ)
        → translate M space page ≡ o
        → fault_at M (some space) page v.cpu.curspl high ≡ elim o [
          | none ↦ ok (efault, record high { cpu = (splx v.cpu.curspl high.cpu).1 })
          | some paddr ↦
              check (is_page M paddr) >> ok (tlb_loop M M.num_tlb 0 page paddr v.cpu.curspl high)
        ]
    unfolding fault_at
    at_steps o e = rw (fault_at, good, e) refl

    -- A fault of `VM_FAULT_READ` or `VM_FAULT_WRITE`, on an address space that is set up and with the
    -- interrupt level and the enable bit in step. An address without translation is an EFAULT. With
    -- a translation to a page boundary, the first free slot of the TLB takes it and no other changes,
    -- or all slots are used and it is an EFAULT; with one that is not a page boundary the kernel
    -- panics. Memory and interrupt level are what they were.
    pub vm_fault_lem : Faults (vm_fault M faulttype faultaddress (some space) v)
    vm_fault_lem = elim (Option-cases (translate M space page)) [
      | inl unmapped ↦ inl (
        unmapped,
        fault_steps ∙ at_steps none unmapped ∙ ap (λ c. ok (efault, record v { cpu = c })) restored,
      )
      | inr (paddr, found) ↦ inr (
        paddr,
        found,
        elim (Bool-cases (is_page M paddr)) [
          | inr astray ↦ inl (astray, fault_steps ∙ at_steps (some paddr) found ∙ rw astray refl)
          | inl aligned ↦
              let so = fault_steps ∙ at_steps (some paddr) found in
              elim (loop-Fills M M.num_tlb 0 page paddr v.cpu.curspl high) [
                | inl (all, full) ↦ inr (
                    inl (
                      λ j h. all j (omega arith) (omega arith),
                      so ∙ rw (aligned, full, restored) refl,
                    ))
                | inr (j, a, b, free, before, done) ↦ inr (
                    inr (
                      j,
                      omega arith,
                      free,
                      λ i h. before i (omega arith) h,
                      so ∙ rw (aligned, done, restored) refl,
                    ))
              ]
        ],
      )
    ]
