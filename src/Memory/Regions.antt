-- ===== src/Memory/Regions.antt =====
-- The pages that `as_define_region` of Projects/OS161/kern/mips/dumbvm.c sets aside, and what
-- `as_activate` leaves in the TLB.
use native.Mathlib.Nat.{mod-add-div, mod-lt, mul_comm, mul-div_left, mul-mod_left}
use windborne.Base.{ℕ, ◌+◌, ◌-◌, ◌*◌, ◌/◌, ◌%◌, ◌^◌, ◌<◌, ◌≤◌, ◌≡◌, ap, ◌∙◌, arith}
use windborne.Memory.Machine.{Machine, Laws, wrap}
use windborne.Memory.AddrSpaces.{align}

rounded : (x p : ℕ) → 0 < p → (x / p * p ≤ x) × (x < x / p * p + p)
rounded x p h = (
  omega (arith, mod-add-div x p, mul_comm p (x / p)),
  omega (arith, mod-add-div x p, mul_comm p (x / p), mod-lt x h),
)

module _ (M : Machine) (L : Laws M) where
  whole_pages :
      (y : ℕ)
      → y < 2 ^ 32
      → M.page_frame y / M.page_size * M.page_size ≡ y / M.page_size * M.page_size
  whole_pages y h =
      ap (λ f. f / M.page_size * M.page_size) (L.frame y h)
      ∙ ap (λ n. n * M.page_size) (mul-div_left (y / M.page_size) L.page_pos)

  -- The pages that `as_define_region` sets aside, for an address of 32 bits and a length that
  -- leaves two pages of room below 2 ^ 32, begin at a page boundary, cover the region, and are no
  -- more than it needs.
  pub align_lem :
      (vaddr sz : ℕ)
      → vaddr < 2 ^ 32
      → sz + M.page_size + M.page_size < 2 ^ 32
      → let (base, npages) = align M vaddr sz in
        (base % M.page_size ≡ 0)
        × (base ≤ vaddr)
        × (vaddr + sz ≤ base + npages * M.page_size)
        × (base + npages * M.page_size < vaddr + sz + M.page_size)
  unfolding align
  align_lem vaddr sz h k =
      let p = M.page_size in
      let y = sz + vaddr % p + p - 1 in
      let small = mod-lt vaddr L.page_pos in
      let inner : wrap (wrap (sz + M.page_offset vaddr) + p - 1) ≡ y =
        omega (arith, L.offset vaddr h, small) in
      let pages = ap (λ f. M.page_frame f / p * p) inner ∙ whole_pages y (omega (arith, small)) in
      let round = rounded y p L.page_pos in
      let start = mod-add-div vaddr p in
      let turned = mul_comm p (vaddr / p) in
      (
        ap (λ f. f % p) (L.frame vaddr h) ∙ mul-mod_left (vaddr / p) p,
        omega (arith, L.frame vaddr h, (rounded vaddr p L.page_pos).0),
        omega (arith, L.frame vaddr h, pages, round.1, start, turned),
        omega (arith, L.frame vaddr h, pages, round.0, start, turned, L.page_pos),
      )
