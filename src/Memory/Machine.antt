-- ===== src/Memory/Machine.antt =====
-- The state that Projects/OS161/kern/mips/ram.c and dumbvm.c keep, and what they take from machine
-- headers that the repository does not hold. Addresses and sizes are 32 bits wide.
use windborne.Base.{ℕ, ◌*◌, ◌/◌, ◌%◌, ◌^◌, ◌<◌, ◌≡◌, Bool, ◌==◌, if◌then◌else◌}
use windborne.Spl.{Cpu}

pub record Machine : Type 0 where
  pub spl_high : ℕ  -- SPL_HIGH
  pub page_size : ℕ  -- PAGE_SIZE
  pub page_frame : ℕ → ℕ  -- x & PAGE_FRAME
  pub page_offset : ℕ → ℕ  -- x & ~PAGE_FRAME
  pub userstack : ℕ  -- USERSTACK
  pub num_tlb : ℕ  -- NUM_TLB
  pub tlblo_is_valid : ℕ → Bool  -- elo & TLBLO_VALID
  pub tlblo_mapped : ℕ → ℕ  -- paddr | TLBLO_DIRTY | TLBLO_VALID
  pub tlbhi_invalid : ℕ → ℕ  -- TLBHI_INVALID(i)
  pub tlblo_invalid : ℕ  -- TLBLO_INVALID()
  pub paddr_to_kvaddr : ℕ → ℕ  -- PADDR_TO_KVADDR
  pub mips_kseg0 : ℕ  -- MIPS_KSEG0

-- PAGE_FRAME keeps the number of the page.
pub record Laws (M : Machine) : Type 0 where
  pub spl_high_pos : 0 < M.spl_high
  pub page_pos : 0 < M.page_size
  pub frame : (x : ℕ) → x < 2 ^ 32 → M.page_frame x ≡ x / M.page_size * M.page_size
  pub offset : (x : ℕ) → x < 2 ^ 32 → M.page_offset x ≡ x % M.page_size

pub record Entry : Type 0 where
  pub ehi : ℕ
  pub elo : ℕ

pub record Ram : Type 0 where
  pub firstpaddr : ℕ
  pub lastpaddr : ℕ

pub record Vm : Type 0 where
  pub cpu : Cpu
  pub ram : Ram
  pub tlb : ℕ → Entry

-- `struct addrspace`
pub record AddrSpace : Type 0 where
  pub as_vbase1 : ℕ
  pub as_pbase1 : ℕ
  pub as_npages1 : ℕ
  pub as_vbase2 : ℕ
  pub as_pbase2 : ℕ
  pub as_npages2 : ℕ
  pub as_stackpbase : ℕ

-- Sums and products of 32-bit values.
abbrev pub wrap : ℕ → ℕ
wrap x = x % 2 ^ 32

abbrev pub write : (ℕ → Entry) → ℕ → Entry → ℕ → Entry
write tlb i e j = if i == j then e else tlb j
