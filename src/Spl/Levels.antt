-- ===== src/Spl/Levels.antt =====
-- The functions of spl.c. `status` is coprocessor register 12; its bit 0 is IEc, the global
-- interrupt enable flag.
use windborne.Base.{ℕ, ◌+◌, ◌*◌, ◌/◌, ◌==◌, Bool, false, if◌then◌else◌, Outcome, ok, check, ◌>>◌}
use windborne.Base.Int.{ℤ, pos, negsuc, ltb_ℤ}

pub record Cpu : Type 0 where
  pub status : ℕ
  pub curspl : ℤ
  pub in_interrupt : ℤ

-- `x |= CST_IEc` and `x &= ~CST_IEc`
abbrev pub interrupts_on : Cpu → Cpu
interrupts_on c = record c { status = c.status / 2 * 2 + 1 }

abbrev pub interrupts_off : Cpu → Cpu
interrupts_off c = record c { status = c.status / 2 * 2 }

-- Both values are computed from one read of the register.
abbrev pub interrupts_onoff : Cpu → Cpu
interrupts_onoff c = record (interrupts_on c) { status = c.status / 2 * 2 }

-- `newspl==0`
abbrev pub is_zero : ℤ → Bool
is_zero (pos n) = n == 0
is_zero (negsuc n) = false

unfoldable pub splx : ℤ → Cpu → ℤ × Cpu
splx newspl c = (
  c.curspl,
  record (if ltb_ℤ (pos 0) newspl
      then interrupts_off c
      else if is_zero newspl
      then interrupts_on c
      else c) { curspl = newspl },
)

unfoldable pub splhigh : ℕ → Cpu → ℤ × Cpu
unfolding splx
splhigh spl_high = splx (pos spl_high)

unfoldable pub spl0 : Cpu → ℤ × Cpu
unfolding splx
spl0 = splx (pos 0)

-- `assert(curspl>0)`
abbrev pub spl_raised : Cpu → Bool
spl_raised c = ltb_ℤ (pos 0) c.curspl

-- One WAIT, then the window in which a pending interrupt is taken.
unfoldable pub cpu_idle : Cpu → Outcome Cpu
cpu_idle c = do check (spl_raised c); ok (interrupts_onoff c)

-- The endless loop of WAITs is entered with interrupts off.
unfoldable pub cpu_halt : Cpu → Cpu
cpu_halt c = interrupts_off c
