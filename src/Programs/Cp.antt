-- ===== src/Programs/Cp.antt =====
-- Projects/OS161/bin/cp/cp.c. `fuel` is for the rounds of the reading loop.
use windborne.Base.{ℕ, List, [], ◌∷◌, String, if◌then◌else◌}
use windborne.Base.Int.{ℤ, pos, ltb_ℤ}
use windborne.Programs.Process.{Calls, Run, returns, ◌>>=◌}
use windborne.Programs.Copying.{err, copy_loop}

module _ (C : Calls) where
  unfoldable pub close_checked : String → ℤ → C.World → Run C.World
  close_checked name fd w =
      let r = C.close fd w in
      if ltb_ℤ r.0 (pos 0) then err C "%s: close" (name ∷ []) r.1 else returns r.1

  unfoldable pub copy : ℕ → String → String → C.World → Run C.World
  unfolding close_checked
  copy fuel from to w =
      let f = C.open_read from w in
      if ltb_ℤ f.0 (pos 0)
      then err C "%s" (from ∷ []) f.1
      else let t = C.open_write to f.1 in
        if ltb_ℤ t.0 (pos 0)
        then err C "%s" (to ∷ []) t.1
        else (copy_loop C fuel (err C "%s" (from ∷ [])) (err C "%s" (to ∷ [])) f.0 t.0 t.1 >>= λ w1.
            close_checked from f.0 w1 >>= λ w2. close_checked to t.0 w2)

  -- `main` of cp.c; `args` are the words behind the program's name.
  unfoldable pub cp_main : ℕ → List String → C.World → Run C.World
  unfolding copy
  cp_main fuel (from ∷ (to ∷ [])) w = copy fuel from to w
  cp_main fuel args w = err C "Usage: cp OLDFILE NEWFILE" [] w
