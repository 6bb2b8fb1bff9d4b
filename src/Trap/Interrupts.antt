-- ===== src/Trap/Interrupts.antt =====
-- `mips_interrupt` of Projects/OS161/kern/mips/interrupt.c.
use windborne.Base.{
  ℕ, ◌/◌, ◌%◌, ◌^◌, ◌==◌, Bool, Outcome, ok, panic, panicked, check, ◌>>=◌, ◌>>◌, if◌then◌else◌,
}
use windborne.Base.Int.{pos}
use windborne.Spl.{Cpu, spl_raised}

-- The processor, and the rest of the kernel.
pub record Context (K : Type 0) : Type 0 where
  pub cpu : Cpu
  pub kernel : K

-- `cause & 0x400` and `cause & 0x800`
abbrev pub has_bit : ℕ → ℕ → Bool
has_bit bit cause = cause / 2 ^ bit % 2 == 1

module _ {K : Type 0} (mips_lamebus_interrupt : Context K → Outcome (Context K)) where
  unfoldable pub mips_interrupt : ℕ → Context K → Outcome (Context K)
  mips_interrupt cause s = do
    let old_in = s.cpu.in_interrupt
    check (spl_raised s.cpu)
    let s1 = record s { cpu = record s.cpu { in_interrupt = pos 1 } }
    s2 ←
        if has_bit 10 cause
        then mips_lamebus_interrupt s1
        else if has_bit 11 cause
        then panic panicked
        else panic panicked
    ok (record s2 { cpu = record s2.cpu { in_interrupt = old_in } })
