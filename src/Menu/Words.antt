-- ===== src/Menu/Words.antt =====
-- The texts of Projects/OS161/kern/main/menu.c, and C's `strtok_r`. A text is the list of its bytes
-- before the NUL.
use Prim.Native.Char.{code}
use windborne.Base.{
  ℕ, ◌==◌, ◌&&◌, ◌||◌, Bool, true, false, List, [], ◌∷◌, Option, none, some, String, if◌then◌else◌,
}

abbrev pub Bytes : Type 0
Bytes = List ℕ

abbrev pub codes : String → Bytes
codes String.[] = []
codes (String.◌∷◌ c s) = code c ∷ codes s

-- `!strcmp(a, b)`
abbrev pub bytes_eq : Bytes → Bytes → Bool
bytes_eq [] [] = true
bytes_eq [] (d ∷ b) = false
bytes_eq (c ∷ a) [] = false
bytes_eq (c ∷ a) (d ∷ b) = c == d && bytes_eq a b

abbrev pub contains : Bytes → ℕ → Bool
contains [] c = false
contains (d ∷ seps) c = d == c || contains seps c

module _ (seps : Bytes) where
  -- The text from the first byte on that separates nothing.
  abbrev pub skip : Bytes → Bytes
  skip [] = []
  skip (c ∷ s) = if contains seps c then skip s else c ∷ s

  -- The text before the first separator, and behind it.
  abbrev pub before : Bytes → Bytes
  before [] = []
  before (c ∷ s) = if contains seps c then [] else c ∷ before s

  abbrev pub behind : Bytes → Bytes
  behind [] = []
  behind (c ∷ s) = if contains seps c then s else behind s

  abbrev pub cut : Bytes → Option (Bytes × Bytes)
  cut [] = none
  cut (c ∷ s) = some (before (c ∷ s), behind (c ∷ s))

  -- A word, and the context for the next call.
  unfoldable pub strtok_r : Bytes → Option (Bytes × Bytes)
  strtok_r s = cut (skip s)
