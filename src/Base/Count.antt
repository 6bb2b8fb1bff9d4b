-- ===== src/Base/Count.antt =====
-- How often a number stands in a list. (The library's `count` answers in its unary numbers.)
use Prim.Native.Nat.{ℕ, ◌+◌, ◌<◌}
use mathlib.Core.Path.{◌≡◌, refl, subst}
use mathlib.Core.List.{List, [], ◌∷◌, ◌++◌}
use native.Mathlib.Decide.{ℕ_discrete}
use native.Mathlib.Omega.{arith}
use windborne.Base.Tests.{◌==◌, if◌then◌else◌}
use windborne.Base.Positions.{All}

pub count : ℕ → List ℕ → ℕ
count p [] = 0
count p (x ∷ xs) = (if x == p then 1 else 0) + count p xs

pub count-nil : (p : ℕ) → count p [] ≡ 0
unfolding count
count-nil p = refl

pub count-cons : (p x : ℕ) (xs : List ℕ) → count p (x ∷ xs) ≡ (if x == p then 1 else 0) + count p xs
unfolding count
count-cons p x xs = refl

pub count-cons_self : (x : ℕ) (xs : List ℕ) → count x (x ∷ xs) ≡ 1 + count x xs
unfolding count
count-cons_self x xs = ground arith

pub count-append : (p : ℕ) (xs ys : List ℕ) → count p (xs ++ ys) ≡ count p xs + count p ys
unfolding count
count-append p [] ys = omega arith
count-append p (x ∷ xs) ys = omega (arith, count-append p xs ys)

pub count-snoc : (p : ℕ) (xs : List ℕ) (x : ℕ) → count p (xs ++ x ∷ []) ≡ count p (x ∷ xs)
count-snoc p xs x =
    omega (arith, count-append p xs (x ∷ []), count-cons p x xs, count-cons p x [], count-nil p)

-- A predicate of what a map holds at each element is kept by a map that agrees there.
pub All-agree {ℓ κ} :
    {B : Type ℓ} (Q : B → Type κ) (h h' : ℕ → B) (xs : List ℕ)
    → ((p : ℕ) → 0 < count p xs → h p ≡ h' p)
    → All (λ p. Q (h p)) xs
    → All (λ p. Q (h' p)) xs
All-agree Q h h' [] agree a = tt
All-agree Q h h' (x ∷ xs) agree a = (
  subst Q (agree x (omega (arith, count-cons_self x xs))) a.0,
  All-agree Q h h' xs (λ p c. agree p (ground (arith, count-cons p x xs))) a.1,
)

pub All-get : (Q : ℕ → Type 0) (p : ℕ) (xs : List ℕ) → 0 < count p xs → All Q xs → Q p
unfolding count
All-get Q p [] c a = absurd (omega arith)
All-get Q p (x ∷ xs) c a = elim (ℕ_discrete x p) [
  | yes e ↦ subst Q e a.0
  | no n ↦ All-get Q p xs (ground arith) a.1
]

pub All-of : (Q : ℕ → Type 0) (xs : List ℕ) → ((p : ℕ) → 0 < count p xs → Q p) → All Q xs
All-of Q [] h = tt
All-of Q (x ∷ xs) h = (
  h x (omega (arith, count-cons_self x xs)),
  All-of Q xs (λ p c. h p (ground (arith, count-cons p x xs))),
)
