-- ===== src/Base/Positions.antt =====
-- An element between two parts of a list, by its position.
use Prim.Native.Nat.{ℕ, zero, suc}
use mathlib.Core.Path.{◌≡◌, refl, ap}
use mathlib.Core.List.{List, [], ◌∷◌, ◌++◌}
use mathlib.Core.Option.{some}
use native.Mathlib.Omega.{arith}
use windborne.Base.Lists.{length, get_elem?, remove_nth}

module _ {ℓ κ} {A : Type ℓ} where
  -- Every element satisfies a predicate.
  abbrev pub All : (A → Type κ) → List A → Type κ
  All Q [] = Unit
  All Q (a ∷ l) = Q a × All Q l

  pub All-append : (Q : A → Type κ) (l r : List A) → All Q l → All Q r → All Q (l ++ r)
  All-append Q [] r below above = above
  All-append Q (a ∷ l) r (first, below) above = (first, All-append Q l r below above)

module _ {ℓ} {A : Type ℓ} where
  pub get_elem?-middle :
      (xs ys : List A) (y : A) (i : ℕ) → length xs ≡ i → get_elem? (xs ++ y ∷ ys) i ≡ some y
  get_elem?-middle [] ys y zero h = refl
  get_elem?-middle [] ys y (suc i) h = absurd (omega arith)
  get_elem?-middle (x ∷ xs) ys y zero h = absurd (omega arith)
  get_elem?-middle (x ∷ xs) ys y (suc i) h = get_elem?-middle xs ys y i (omega arith)

  pub remove_nth-middle :
      (xs ys : List A) (y : A) (i : ℕ) → length xs ≡ i → remove_nth (xs ++ y ∷ ys) i ≡ xs ++ ys
  remove_nth-middle [] ys y zero h = refl
  remove_nth-middle [] ys y (suc i) h = absurd (omega arith)
  remove_nth-middle (x ∷ xs) ys y zero h = absurd (omega arith)
  remove_nth-middle (x ∷ xs) ys y (suc i) h = ap (◌∷◌ x) (remove_nth-middle xs ys y i (omega arith))
