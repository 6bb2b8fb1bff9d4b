-- ===== src/Listing/Names.antt =====
-- The names that Projects/OS161/bin/ls/ls.c builds and takes apart.
use windborne.Base.{
  ℕ, ◌≤◌, ◌≡◌, refl, ◌∙◌, ap, arith, true, false, [], ◌∷◌, ◌++◌, length, take, suc, zero,
}
use windborne.Menu.Words.{Bytes, contains}
use windborne.Listing.Files.{basename, new_path}

contains_slash : (path name : Bytes) → contains (path ++ b'/' ∷ name) b'/' ≡ true
contains_slash [] name = refl
contains_slash (c ∷ path) name = ground (arith, contains_slash path name)

basename_plain : (name : Bytes) → contains name b'/' ≡ false → basename name ≡ name
unfolding basename
basename_plain [] h = refl
basename_plain (c ∷ name) h = ground (arith, basename_plain name)

basename_behind :
    (path name : Bytes) → contains name b'/' ≡ false → basename (path ++ b'/' ∷ name) ≡ name
unfolding basename
basename_behind [] name h = rw h refl
basename_behind (c ∷ path) name h = rw (contains_slash path name) (basename_behind path name h)

take_short : (n : ℕ) (s : Bytes) → length s ≤ n → take n s ≡ s
take_short zero [] h = refl
take_short zero (c ∷ s) h = absurd (omega arith)
take_short (suc n) [] h = refl
take_short (suc n) (c ∷ s) h = ap (λ l. c ∷ l) (take_short n s (omega arith))

-- Of a path that `newpath` has space for, the last part is the name that it was made with.
pub basename-new_path :
    (path name : Bytes)
    → contains name b'/' ≡ false
    → length (path ++ b'/' ∷ name) ≤ 1023
    → basename (new_path path name) ≡ name
unfolding new_path
basename-new_path path name h fits =
    ap basename (take_short 1023 (path ++ b'/' ∷ name) fits) ∙ basename_behind path name h
