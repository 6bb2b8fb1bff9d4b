-- ===== src/Programs/Cat.antt =====
-- Projects/OS161/bin/cat/cat.c. `fuel` is for the rounds of the reading loop.
use windborne.Base.{ℕ, List, [], ◌∷◌, String, if◌then◌else◌}
use windborne.Base.Int.{ℤ, pos, ltb_ℤ}
use windborne.Programs.Process.{Calls, Run, returns, ◌>>=◌}
use windborne.Programs.Copying.{err, copy_loop}
use text.Mathlib.Text.{◌==◌}

module _ (C : Calls) where
  -- STDIN_FILENO is 0, STDOUT_FILENO is 1.
  unfoldable pub docat : ℕ → String → ℤ → C.World → Run C.World
  docat fuel name fd w = copy_loop C fuel (err C "%s" (name ∷ [])) (err C "stdout" []) fd (pos 1) w

  unfoldable pub cat : ℕ → String → C.World → Run C.World
  unfolding docat
  cat fuel file w =
      if file == "-"
      then docat fuel "stdin" (pos 0) w
      else let r = C.open_read file w in
        if ltb_ℤ r.0 (pos 0)
        then err C "%s" (file ∷ []) r.1
        else (docat fuel file r.0 r.1 >>= λ w1. returns (C.close r.0 w1).1)

  unfoldable pub cat_all : ℕ → List String → C.World → Run C.World
  unfolding cat
  cat_all fuel [] w = returns w
  cat_all fuel (file ∷ files) w = cat fuel file w >>= cat_all fuel files

  -- `main` of cat.c; `args` are the words behind the program's name.
  unfoldable pub cat_main : ℕ → List String → C.World → Run C.World
  unfolding docat cat_all
  cat_main fuel [] w = docat fuel "stdin" (pos 0) w
  cat_main fuel (file ∷ files) w = cat_all fuel (file ∷ files) w
