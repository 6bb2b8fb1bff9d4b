-- ===== src/Memory/Stealing.antt =====
-- What `ram_stealmem` of Projects/OS161/kern/mips/ram.c and `getppages` of dumbvm.c hand out.
use windborne.Base.{
  ℕ, ◌+◌, ◌*◌, ◌^◌, ◌<◌, ◌≤◌, ◌≡◌, refl, ap, ◌⊎◌, inl, inr, arith, ltb, Bool-cases,
}
use windborne.Spl.{splhigh}
use windborne.Spl.Nesting.{IsConsistent, splx-splhigh}
use windborne.Memory.Machine.{Machine, Ram, Vm, wrap}
use windborne.Memory.Ram.{ram_stealmem, getppages}

-- The pages from `first` on are the caller's, and the free memory begins behind them.
pub record Stolen (M : Machine) (npages : ℕ) (r : Ram) (o : ℕ × Ram) : Type 0 where
  pub address : o.0 ≡ r.firstpaddr
  pub first : o.1.firstpaddr ≡ r.firstpaddr + npages * M.page_size
  pub last : o.1.lastpaddr ≡ r.lastpaddr
  pub inside : o.1.firstpaddr ≤ r.lastpaddr

wrap_lem : (x : ℕ) → x < 2 ^ 32 → wrap x ≡ x
wrap_lem x h = omega arith

module _ (M : Machine) where
  -- Where the end of the pages is a 32-bit address, `ram_stealmem` refuses exactly what does not
  -- fit, and changes nothing then; otherwise the pages are the first free ones.
  pub ram_stealmem_lem :
      (npages : ℕ) (r : Ram)
      → r.firstpaddr + npages * M.page_size < 2 ^ 32
      → ((r.lastpaddr < r.firstpaddr + npages * M.page_size) × (ram_stealmem M npages r ≡ (0, r)))
        ⊎ Stolen M npages r (ram_stealmem M npages r)
  unfolding ram_stealmem
  ram_stealmem_lem npages r h =
      let size = wrap_lem (npages * M.page_size) (omega arith) in
      let end = wrap_lem (r.firstpaddr + npages * M.page_size) h in
      elim (Bool-cases (ltb r.lastpaddr (r.firstpaddr + npages * M.page_size))) [
        | inl beyond ↦ inl (ground arith, rw (size, end, beyond) refl)
        | inr within ↦ inr (
            rw (size, end, within)
              (record { address = refl; first = refl; last = refl; inside = ground arith }))
      ]

  -- The same through `getppages`, which leaves the processor and the TLB as they were.
  pub getppages_lem :
      (npages : ℕ) (v : Vm)
      → 0 < M.spl_high
      → IsConsistent v.cpu
      → getppages M npages v
        ≡ ((ram_stealmem M npages v.ram).0, record v { ram = (ram_stealmem M npages v.ram).1 })
  unfolding getppages splhigh
  getppages_lem npages v p k =
      ap
        (λ c. (
          (ram_stealmem M npages v.ram).0,
          record v { cpu = c; ram = (ram_stealmem M npages v.ram).1 },
        ))
        (splx-splhigh M.spl_high v.cpu p k).2
