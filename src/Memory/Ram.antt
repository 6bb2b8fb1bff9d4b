-- ===== src/Memory/Ram.antt =====
-- Projects/OS161/kern/mips/ram.c, and `getppages` and `alloc_kpages` of dumbvm.c.
use windborne.Base.{ℕ, ◌+◌, ◌-◌, ◌*◌, ◌^◌, ◌==◌, ltb, if◌then◌else◌}
use windborne.Spl.{splx, splhigh}
use windborne.Memory.Machine.{Machine, Ram, Vm, wrap}

module _ (M : Machine) where
  -- `ramsize` is what `mips_ramsize()` returns; `firstfree` is set by start.S.
  unfoldable pub ram_bootstrap : ℕ → ℕ → Ram
  ram_bootstrap ramsize firstfree = record {
    firstpaddr = wrap (firstfree + 2 ^ 32 - M.mips_kseg0);
    lastpaddr = if ltb (508 * 1024 * 1024) ramsize then 508 * 1024 * 1024 else ramsize;
  }

  unfoldable pub ram_stealmem : ℕ → Ram → ℕ × Ram
  ram_stealmem npages r =
      if ltb r.lastpaddr (wrap (r.firstpaddr + wrap (npages * M.page_size))) then (0, r) else (
        r.firstpaddr,
        record r { firstpaddr = wrap (r.firstpaddr + wrap (npages * M.page_size)) },
      )

  -- The bounds of the free memory, which is then the caller's.
  unfoldable pub ram_getsize : Ram → ℕ × ℕ × Ram
  ram_getsize r = (r.firstpaddr, r.lastpaddr, record { firstpaddr = 0; lastpaddr = 0 })

  unfoldable pub getppages : ℕ → Vm → ℕ × Vm
  unfolding ram_stealmem splhigh splx
  getppages npages v =
      let (spl, c) = splhigh M.spl_high v.cpu in
      let (addr, r) = ram_stealmem npages v.ram in
      (addr, record v { cpu = (splx spl c).1; ram = r })

  unfoldable pub alloc_kpages : ℕ → Vm → ℕ × Vm
  unfolding getppages
  alloc_kpages npages v =
      let (pa, w) = getppages npages v in (if pa == 0 then 0 else M.paddr_to_kvaddr pa, w)
