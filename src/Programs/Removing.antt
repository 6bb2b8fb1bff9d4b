-- ===== src/Programs/Removing.antt =====
-- What Projects/OS161/bin/rm/rm.c removes.
use windborne.Base.{ℕ, zero, suc, ◌≡◌, refl, ◌⊎◌, inl, inr, List, [], ◌∷◌, ◌++◌, String, ap}
use windborne.Programs.Process.{Run, returns, exits, ◌>>=◌}
use windborne.Programs.Names.{Calls, or_err, doremove, rm_loop, rm_main}

-- The calls on all of the files succeed, and lead from one world to the other.
pub data Removed (C : Calls) : List String → C.World → C.World → Type 0 where
  none_left : {w : C.World} → Removed C [] w w
  one_more :
      {file : String} {files : List String} {w w1 w2 : C.World}
      → C.remove file w ≡ (0, w1)
      → Removed C files w1 w2
      → Removed C (file ∷ files) w w2

module _ (C : Calls) where
  -- All files are removed, in order; or all up to the first that cannot be, and its name is printed.
  abbrev pub RemovesAll : List String → C.World → Run C.World → Type 0
  RemovesAll files w o =
      ((w1 : C.World) × Removed C files w w1 × (o ≡ returns w1))
      ⊎ ((before : List String) × (file : String) × (behind : List String) × (w1 w2 : C.World)
          × (code : ℕ) × (files ≡ before ++ file ∷ behind)
          × Removed C before w w1
          × (C.remove file w1 ≡ (suc code, w2))
          × (o ≡ exits 1 (C.print_error "%s" (file ∷ []) w2)))

  first_case :
      (file : String) (files : List String) (w : C.World) (r : ℕ × C.World)
      → C.remove file w ≡ r
      → ((w1 : C.World) → RemovesAll files w1 (rm_loop C files w1))
      → RemovesAll (file ∷ files) w (or_err C "%s" (file ∷ []) r >>= rm_loop C files)
  first_case file files w (zero, w1) e rest = elim (rest w1) [
    | inl (w2, all, o) ↦ inl (w2, one_more e all, o)
    | inr (before, bad, behind, w2, w3, code, parts, done, fails, o) ↦ inr (
      file ∷ before,
      bad,
      behind,
      w2,
      w3,
      code,
      ap (λ l. file ∷ l) parts,
      one_more e done,
      fails,
      o,
    )
  ]
  first_case file files w (suc code, w1) e rest =
      inr ([], file, files, w, w1, code, refl, none_left, e, refl)

  pub rm_loop_lem : (files : List String) (w : C.World) → RemovesAll files w (rm_loop C files w)
  unfolding rm_loop doremove
  rm_loop_lem [] w = inl (w, none_left, refl)
  rm_loop_lem (file ∷ files) w = first_case file files w (C.remove file w) refl (rm_loop_lem files)

  -- `rm` with at least one name: it returns with all of the files removed, in the order of their
  -- names, or it exits with 1 at the first one that cannot be removed, whose name it prints; those
  -- before it are removed, and those behind it are not looked at.
  pub rm_main_lem :
      (file : String) (files : List String) (w : C.World)
      → RemovesAll (file ∷ files) w (rm_main C (file ∷ files) w)
  unfolding rm_main
  rm_main_lem file files w = rm_loop_lem (file ∷ files) w
