-- ===== src/Base/Int.antt =====
-- Signed integers over the native numbers, under the library's names (its ℤ stands on the unary ℕ).
-- Orders go through the two parts of an integer, which are numbers that `omega` reads. An `int` has
-- 32 bits.
use windborne.Base.{ℕ, suc, ◌+◌, ◌-◌, ◌≤◌, Bool, ◌==◌, ◌^◌, ltb, if◌then◌else◌}

-- `negsuc n` is -(n + 1).
pub data ℤ : Type 0 where
  pos : ℕ → ℤ
  negsuc : ℕ → ℤ

abbrev pub pos_part : ℤ → ℕ
pos_part (pos n) = n
pos_part (negsuc n) = 0

abbrev pub neg_part : ℤ → ℕ
neg_part (pos n) = 0
neg_part (negsuc n) = suc n

infix 50 ◌≤ℤ◌
abbrev pub ◌≤ℤ◌ : ℤ → ℤ → Type 0
a ≤ℤ b = pos_part a + neg_part b ≤ pos_part b + neg_part a

abbrev pub ltb_ℤ : ℤ → ℤ → Bool
ltb_ℤ a b = ltb (pos_part a + neg_part b) (pos_part b + neg_part a)

-- `x++` and `x--` on an `int`, which wrap.
abbrev pub int_inc : ℤ → ℤ
int_inc (pos n) = if n == 2 ^ 31 - 1 then negsuc (2 ^ 31 - 1) else pos (n + 1)
int_inc (negsuc n) = if n == 0 then pos 0 else negsuc (n - 1)

abbrev pub int_dec : ℤ → ℤ
int_dec (pos n) = if n == 0 then negsuc 0 else pos (n - 1)
int_dec (negsuc n) = if n == 2 ^ 31 - 1 then pos (2 ^ 31 - 1) else negsuc (n + 1)

-- `-x`
abbrev pub int_neg : ℤ → ℤ
int_neg (pos n) = if n == 0 then pos 0 else negsuc (n - 1)
int_neg (negsuc n) = if n == 2 ^ 31 - 1 then negsuc n else pos (n + 1)
