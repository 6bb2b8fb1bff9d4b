-- ===== src/Memory/Example.antt =====
-- A small machine with two slots in its TLB, for Projects/OS161/kern/mips/ram.c and dumbvm.c.
use windborne.Base.{◌+◌, ◌*◌, ◌/◌, ◌%◌, refl, arith, leb}
use windborne.Memory.Machine.{Machine, Laws}

abbrev pub machine : Machine
machine = record {
  spl_high = 15;
  page_size = 4096;
  page_frame = λ x. x / 4096 * 4096;
  page_offset = λ x. x % 4096;
  userstack = 2147483648;
  num_tlb = 2;
  tlblo_is_valid = λ x. leb 1 (x / 512 % 2);
  tlblo_mapped = λ x. x + 1536;
  tlbhi_invalid = λ i. 2147483648 + i * 4096;
  tlblo_invalid = 0;
  paddr_to_kvaddr = λ x. x + 2147483648;
  mips_kseg0 = 2147483648;
}

pub machine-Laws : Laws machine
machine-Laws = record {
  spl_high_pos = omega arith;
  page_pos = omega arith;
  frame = λ x h. refl;
  offset = λ x h. refl;
}
