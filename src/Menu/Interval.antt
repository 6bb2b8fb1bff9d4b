-- ===== src/Menu/Interval.antt =====
-- `getinterval` of Projects/OS161/kern/main/menu.c on 32-bit patterns.
use windborne.Base.{
  ℕ, ◌+◌, ◌-◌, ◌*◌, ◌%◌, ◌^◌, ◌≤◌, ◌<◌, ◌≡◌, ltb, arith, if◌then◌else◌, Bool-cases, ltb→lt, inl,
  inr,
}

unfoldable pub sub32 : ℕ → ℕ → ℕ
sub32 a b = (a + 2 ^ 32 - b) % 2 ^ 32

-- 1000000000
abbrev pub billion : ℕ
billion = 1000000000

-- `(*rs, *rns)`
unfoldable pub getinterval : ℕ → ℕ → ℕ → ℕ → ℕ × ℕ
getinterval s1 ns1 s2 ns2 =
    if ltb ns2 ns1
    then (sub32 (sub32 s2 1) s1, sub32 ((ns2 + billion) % 2 ^ 32) ns1)
    else (sub32 s2 s1, sub32 ns2 ns1)

sub32_lem : (a b : ℕ) → b ≤ a → a < 2 ^ 32 → sub32 a b ≡ a - b
unfolding sub32
sub32_lem a b h k = omega arith

-- Between two clock readings with 32-bit seconds and less than a billion nanoseconds each, of which the second is not
-- earlier, the interval is a number of seconds and less than a billion nanoseconds, and leads from the first reading to
-- the second.
pub getinterval_lem :
    (s1 ns1 s2 ns2 : ℕ)
    → s2 < 2 ^ 32
    → ns1 < billion
    → ns2 < billion
    → s1 * billion + ns1 ≤ s2 * billion + ns2
    → ((getinterval s1 ns1 s2 ns2).1 < billion)
      × (s1 * billion
            + ns1
            + ((getinterval s1 ns1 s2 ns2).0 * billion + (getinterval s1 ns1 s2 ns2).1)
          ≡ s2 * billion + ns2)
unfolding getinterval
getinterval_lem s1 ns1 s2 ns2 b k1 k2 h = elim (Bool-cases (ltb ns2 ns1)) [
  | inl e ↦
      let fits : (ns2 + billion) % 2 ^ 32 ≡ ns2 + billion = omega arith in
      let nanoseconds = sub32_lem (ns2 + billion) ns1 (omega arith) (omega arith) in
      let seconds = sub32_lem (s2 - 1) s1 (omega (arith, ltb→lt ns2 ns1 e)) (omega arith) in
      rw e (
        rw (fits, nanoseconds, sub32_lem s2 1 (omega (arith, ltb→lt ns2 ns1 e)) b, seconds)
          (omega (arith, ltb→lt ns2 ns1 e)))
  | inr e ↦ rw e (
      rw (sub32_lem s2 s1 (ground arith) b, sub32_lem ns2 ns1 (ground arith) (omega arith))
        (ground arith))
]
