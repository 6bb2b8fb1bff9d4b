-- ===== src/Memory/AddrSpaces.antt =====
-- The address spaces of Projects/OS161/kern/mips/dumbvm.c.
use windborne.Base.{
  ℕ, zero, suc, ◌+◌, ◌-◌, ◌*◌, ◌/◌, ◌==◌, not, Bool, true, false, List, [], ◌∷◌, Option, none, some,
  Outcome, ok, check, ◌>>=◌, ◌>>◌, if◌then◌else◌,
}
use windborne.Spl.{splx, splhigh}
use windborne.Memory.Machine.{Machine, Vm, AddrSpace, wrap, write}
use windborne.Memory.Ram.{getppages}

-- DUMBVM_STACKPAGES, and ENOMEM and EUNIMP of kern/include/kern/errno.h
abbrev pub dumbvm_stackpages : ℕ
dumbvm_stackpages = 12

abbrev pub enomem : ℕ
enomem = 4

abbrev pub eunimp : ℕ
eunimp = 13

-- The structure that `as_create` returns where `kmalloc` succeeds.
abbrev pub as_create : AddrSpace
as_create = record {
  as_vbase1 = 0;
  as_pbase1 = 0;
  as_npages1 = 0;
  as_vbase2 = 0;
  as_pbase2 = 0;
  as_npages2 = 0;
  as_stackpbase = 0;
}

-- `memmove` of a number of bytes between two kernel addresses.
pub record Move : Type 0 where
  pub dst : ℕ
  pub src : ℕ
  pub len : ℕ

module _ (M : Machine) where
  -- The loop of `as_activate`: the rounds that are left, and the index.
  unfoldable pub activate_loop : ℕ → ℕ → Vm → Vm
  activate_loop zero i v = v
  activate_loop (suc n) i v =
      activate_loop n (i + 1) (record v {
        tlb = write v.tlb i (record { ehi = M.tlbhi_invalid i; elo = M.tlblo_invalid });
      })

  unfoldable pub as_activate : Vm → Vm
  unfolding activate_loop splhigh splx
  as_activate v =
      let (spl, c) = splhigh M.spl_high v.cpu in
      let w = activate_loop M.num_tlb 0 (record v { cpu = c }) in
      record w { cpu = (splx spl w.cpu).1 }

  -- The first page of a region and its number of pages.
  unfoldable pub align : ℕ → ℕ → ℕ × ℕ
  align vaddr sz = (
    M.page_frame vaddr,
    M.page_frame (wrap (wrap (sz + M.page_offset vaddr) + M.page_size - 1)) / M.page_size,
  )

  unfoldable pub as_define_region : ℕ → ℕ → AddrSpace → ℕ × AddrSpace
  unfolding align
  as_define_region vaddr sz space =
      let (base, npages) = align vaddr sz in
      if space.as_vbase1 == 0
      then (0, record space { as_vbase1 = base; as_npages1 = npages })
      else if space.as_vbase2 == 0
      then (0, record space { as_vbase2 = base; as_npages2 = npages })
      else (eunimp, space)

  -- Each failure leaves what has been stored before it.
  unfoldable pub prepare_stack : AddrSpace → Vm → ℕ × AddrSpace × Vm
  prepare_stack space v =
      let (p, w) = getppages M dumbvm_stackpages v in
      (if p == 0 then enomem else 0, record space { as_stackpbase = p }, w)

  unfoldable pub prepare_second : AddrSpace → Vm → ℕ × AddrSpace × Vm
  prepare_second space v =
      let (p, w) = getppages M space.as_npages2 v in
      let rest = prepare_stack (record space { as_pbase2 = p }) w in
      if p == 0 then (enomem, record space { as_pbase2 = p }, w) else rest

  unfoldable pub as_prepare_load : AddrSpace → Vm → Outcome (ℕ × AddrSpace × Vm)
  as_prepare_load space v = do
    check (space.as_pbase1 == 0)
    check (space.as_pbase2 == 0)
    check (space.as_stackpbase == 0)
    let (p, w) = getppages M space.as_npages1 v
    if p == 0
        then ok (enomem, record space { as_pbase1 = p }, w)
        else ok (prepare_second (record space { as_pbase1 = p }) w)

  -- The code, and `*stackptr`.
  unfoldable pub as_define_stack : AddrSpace → Outcome (ℕ × ℕ)
  as_define_stack space = do check (not (space.as_stackpbase == 0)); ok (0, M.userstack)

  unfoldable pub moves : AddrSpace → AddrSpace → List Move
  moves old new =
      record {
        dst = M.paddr_to_kvaddr new.as_pbase1;
        src = M.paddr_to_kvaddr old.as_pbase1;
        len = wrap (old.as_npages1 * M.page_size);
      }
      ∷ record {
        dst = M.paddr_to_kvaddr new.as_pbase2;
        src = M.paddr_to_kvaddr old.as_pbase2;
        len = wrap (old.as_npages2 * M.page_size);
      }
      ∷ record {
        dst = M.paddr_to_kvaddr new.as_stackpbase;
        src = M.paddr_to_kvaddr old.as_stackpbase;
        len = wrap (dumbvm_stackpages * M.page_size);
      }
      ∷ []

  abbrev pub blank_copy : AddrSpace → AddrSpace
  blank_copy old = record as_create {
    as_vbase1 = old.as_vbase1;
    as_npages1 = old.as_npages1;
    as_vbase2 = old.as_vbase2;
    as_npages2 = old.as_npages2;
  }

  -- The end of `as_copy`, behind `as_prepare_load`.
  unfoldable pub copy_pages :
      AddrSpace → ℕ × AddrSpace × Vm → Outcome (ℕ × Option AddrSpace × List Move × Vm)
  unfolding moves
  copy_pages old (code, new, w) = if not (code == 0) then ok (enomem, none, [], w) else do
    check (not (new.as_pbase1 == 0))
    check (not (new.as_pbase2 == 0))
    check (not (new.as_stackpbase == 0))
    ok (0, some new, moves old new, w)

  -- `has_memory`: whether `kmalloc` succeeds. The moves are what `memmove` is called for.
  unfoldable pub as_copy : Bool → AddrSpace → Vm → Outcome (ℕ × Option AddrSpace × List Move × Vm)
  unfolding as_prepare_load copy_pages
  as_copy false old v = ok (enomem, none, [], v)
  as_copy true old v = as_prepare_load (blank_copy old) v >>= copy_pages old
