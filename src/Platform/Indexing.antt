-- ===== src/Platform/Indexing.antt =====
-- Reading an array of the platform at the position of a known element.
use windborne.Base.{
  ℕ, ◌<◌, ◌≡◌, ap, List, ◌∷◌, ◌++◌, length, length-append, get_elem?, get_elem?-middle, arith,
}
use windborne.Platform.Interface.{Platform, Laws}

module _ {P : Platform} (L : Laws P) where
  pub index_lt :
      (a : P.Array) (pre ps : List ℕ) (p i : ℕ)
      → P.items a ≡ pre ++ p ∷ ps
      → length pre ≡ i
      → i < P.array_getnum a
  index_lt a pre ps p i e n = omega (arith, L.getnum a, ap length e, length-append pre (p ∷ ps))

  pub index_guy :
      (a : P.Array) (pre ps : List ℕ) (p i : ℕ)
      → P.items a ≡ pre ++ p ∷ ps
      → length pre ≡ i
      → P.array_getguy a i ≡ p
  index_guy a pre ps p i e n = ground (
    arith,
    L.getguy a i (omega (arith, ap length e, length-append pre (p ∷ ps))),
    ap (λ l. get_elem? l i) e,
    get_elem?-middle pre ps p i n,
  )
