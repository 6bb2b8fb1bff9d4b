-- ===== src/Programs/Process.antt =====
-- How the programs of Projects/OS161/bin meet the kernel: the system calls that they make, and what a
-- run ends in.
use windborne.Base.{ℕ, List, String}
use windborne.Base.Int.{ℤ}

-- `read fd n` gives the number that C sees, and the bytes that it puts into the buffer. The flags of
-- `open` are O_RDONLY, or O_WRONLY|O_CREAT|O_TRUNC.
pub record Calls : Type 1 where
  pub World : Type 0
  pub open_read : String → World → ℤ × World
  pub open_write : String → World → ℤ × World
  pub read : ℤ → ℕ → World → ℤ × List ℕ × World
  pub write : ℤ → List ℕ → World → ℤ × World
  pub close : ℤ → World → ℤ × World
  pub print_error : String → List String → World → World  -- `err` and `errx`: format and arguments

-- `err(1, ...)` and `errx(1, ...)` print a message and exit.
pub data Run (W : Type 0) : Type 0 where
  returns : W → Run W
  exits : (code : ℕ) → W → Run W
  unfinished : Run W

infixl 5 ◌>>=◌
abbrev pub ◌>>=◌ : {W : Type 0} → Run W → (W → Run W) → Run W
returns w >>= next = next w
exits code w >>= next = exits code w
unfinished >>= next = unfinished
