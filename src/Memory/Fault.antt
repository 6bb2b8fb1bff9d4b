-- ===== src/Memory/Fault.antt =====
-- `vm_fault` of Projects/OS161/kern/mips/dumbvm.c.
use windborne.Base.{
  ℕ, zero, suc, ◌+◌, ◌-◌, ◌*◌, ◌^◌, ◌==◌, ltb, leb, not, Bool, ◌&&◌, Option, none, some, Outcome,
  ok, panic, panicked, check, ◌>>◌, if◌then◌else◌,
}
use windborne.Base.Int.{ℤ}
use windborne.Spl.{splx, splhigh}
use windborne.Memory.Machine.{Machine, Vm, AddrSpace, wrap, write}
use windborne.Memory.AddrSpaces.{dumbvm_stackpages}

-- EFAULT and EINVAL of kern/include/kern/errno.h, and the fault types of vm.h
abbrev pub efault : ℕ
efault = 2

abbrev pub einval : ℕ
einval = 1

abbrev pub vm_fault_readonly : ℕ
vm_fault_readonly = 2

module _ (M : Machine) where
  -- The physical page behind a virtual one, where it is in a segment or on the stack.
  unfoldable pub translate : AddrSpace → ℕ → Option ℕ
  translate space fa =
      let vtop1 = wrap (space.as_vbase1 + wrap (space.as_npages1 * M.page_size)) in
      let vtop2 = wrap (space.as_vbase2 + wrap (space.as_npages2 * M.page_size)) in
      let stackbase = wrap (M.userstack + 2 ^ 32 - wrap (dumbvm_stackpages * M.page_size)) in
      if leb space.as_vbase1 fa && ltb fa vtop1
      then some (wrap (fa - space.as_vbase1 + space.as_pbase1))
      else if leb space.as_vbase2 fa && ltb fa vtop2
      then some (wrap (fa - space.as_vbase2 + space.as_pbase2))
      else if leb stackbase fa && ltb fa M.userstack
      then some (wrap (fa - stackbase + space.as_stackpbase))
      else none

  abbrev pub is_page : ℕ → Bool
  is_page x = M.page_frame x == x

  -- The twelve assertions.
  abbrev pub is_set_up : AddrSpace → Outcome (Unit {0})
  is_set_up space = do
    check (not (space.as_vbase1 == 0))
    check (not (space.as_pbase1 == 0))
    check (not (space.as_npages1 == 0))
    check (not (space.as_vbase2 == 0))
    check (not (space.as_pbase2 == 0))
    check (not (space.as_npages2 == 0))
    check (not (space.as_stackpbase == 0))
    check (is_page space.as_vbase1)
    check (is_page space.as_pbase1)
    check (is_page space.as_vbase2)
    check (is_page space.as_pbase2)
    check (is_page space.as_stackpbase)

  -- The rounds that are left, and the index.
  unfoldable pub tlb_loop : ℕ → ℕ → ℕ → ℕ → ℤ → Vm → ℕ × Vm
  unfolding splx
  tlb_loop zero i fa paddr spl v = (efault, record v { cpu = (splx spl v.cpu).1 })
  tlb_loop (suc n) i fa paddr spl v =
      let rest = tlb_loop n (i + 1) fa paddr spl v in
      if M.tlblo_is_valid ((v.tlb i).elo) then rest else (
        0,
        record v {
          tlb = write v.tlb i (record { ehi = fa; elo = M.tlblo_mapped paddr });
          cpu = (splx spl v.cpu).1;
        },
      )

  -- From the read of `curthread->t_vmspace` on.
  unfoldable pub fault_at : Option AddrSpace → ℕ → ℤ → Vm → Outcome (ℕ × Vm)
  fault_at none fa spl v = ok (efault, v)
  fault_at (some space) fa spl v = is_set_up space >> elim (translate space fa) [
    | none ↦ ok (efault, record v { cpu = (splx spl v.cpu).1 })
    | some paddr ↦ check (is_page paddr) >> ok (tlb_loop M.num_tlb 0 fa paddr spl v)
  ]

  -- VM_FAULT_READ is 0, VM_FAULT_WRITE is 1.
  unfoldable pub vm_fault : ℕ → ℕ → Option AddrSpace → Vm → Outcome (ℕ × Vm)
  vm_fault faulttype faultaddress space v =
      let (spl, c) = splhigh M.spl_high v.cpu in
      if faulttype == vm_fault_readonly
      then panic panicked
      else if ltb faulttype 2
      then fault_at space (M.page_frame faultaddress) spl (record v { cpu = c })
      else ok (einval, record v { cpu = (splx spl c).1 })
