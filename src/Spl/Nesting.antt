-- ===== src/Spl/Nesting.antt =====
-- Interrupt levels nest: a section between `splhigh` and `splx` is closed to interrupts and leaves
-- the processor as it found it.
use windborne.Base.{ℕ, ◌%◌, ◌<◌, ◌≡◌, true, arith}
use windborne.Base.Int.{ℤ, pos, negsuc, ◌≤ℤ◌}
use windborne.Spl.Levels.{Cpu, splx, splhigh, spl_raised}

-- The enable bit says what `curspl` says.
pub record IsConsistent (c : Cpu) : Type 0 where
  pub level : pos 0 ≤ℤ c.curspl
  pub open_at_zero : c.curspl ≤ℤ pos 0 → c.status % 2 ≡ 1
  pub shut_above : pos 1 ≤ℤ c.curspl → c.status % 2 ≡ 0

-- `splx` of a level that is not negative returns the old level, sets the new one, and leaves the
-- enable bit in step with it.
pub splx-IsConsistent :
    (n : ℤ) (c : Cpu)
    → pos 0 ≤ℤ n
    → ((splx n c).0 ≡ c.curspl) × ((splx n c).1.curspl ≡ n) × IsConsistent (splx n c).1
unfolding splx
splx-IsConsistent (pos n) c h = ground arith
splx-IsConsistent (negsuc n) c h = absurd (omega arith)

-- `s = splhigh(); ...; splx(s)`, from a state in which the enable bit agrees with the level and
-- with SPL_HIGH positive, runs its body at a raised level, with interrupts off, and restores the
-- whole processor state.
pub splx-splhigh :
    (spl_high : ℕ) (c : Cpu)
    → 0 < spl_high
    → IsConsistent c
    → let (s, inside) = splhigh spl_high c in
      (spl_raised inside ≡ true) × (inside.status % 2 ≡ 0) × ((splx s inside).1 ≡ c)
unfolding splhigh
splx-splhigh h c p v = ground arith
