-- ===== src/Programs/Names.antt =====
-- The programs of Projects/OS161/bin that make one system call for each name: ln, mv, rm, mkdir,
-- rmdir, pwd, sync, true, false and sh. `args` are the words behind the program's name.
use windborne.Base.{ℕ, zero, ◌+◌, List, [], ◌∷◌, Option, none, some, String, if◌then◌else◌}
use windborne.Menu.Commands.{path_max}
use windborne.Programs.Process.{Run, returns, exits, ◌>>=◌}
use text.Mathlib.Text.{◌==◌}

-- A call gives 0, or another number where it fails. `getcwd n` gives the text that it puts into a
-- buffer of `n` bytes, or NULL.
pub record Calls : Type 1 where
  pub World : Type 0
  pub symlink : String → String → World → ℕ × World
  pub link : String → String → World → ℕ × World
  pub rename : String → String → World → ℕ × World
  pub remove : String → World → ℕ × World
  pub rmdir : String → World → ℕ × World
  pub mkdir : String → (mode : ℕ) → World → ℕ × World
  pub getcwd : ℕ → World → Option String × World
  pub sync : World → World
  pub print : String → List String → World → World  -- `printf`
  pub print_error : String → List String → World → World  -- `err`, `errx` and `warnx`

-- 0775
abbrev pub mode_775 : ℕ
mode_775 = 509

module _ (C : Calls) where
  abbrev pub err_exit : String → List String → C.World → Run C.World
  err_exit format args w = exits 1 (C.print_error format args w)

  -- `if (call) err(...)`
  abbrev pub or_err : String → List String → ℕ × C.World → Run C.World
  or_err format args (zero, w) = returns w
  or_err format args (_, w) = err_exit format args w

  unfoldable pub dosymlink : String → String → C.World → Run C.World
  dosymlink text path w = or_err "%s" (path ∷ []) (C.symlink text path w)

  -- The `exit` behind `err` is not reached.
  unfoldable pub dohardlink : String → String → C.World → Run C.World
  dohardlink oldfile newfile w =
      or_err "%s or %s" (oldfile ∷ newfile ∷ []) (C.link oldfile newfile w)

  unfoldable pub ln_main : List String → C.World → Run C.World
  unfolding dosymlink dohardlink
  ln_main (a ∷ b ∷ []) w = dohardlink a b w
  ln_main (a ∷ b ∷ c ∷ []) w =
      if a == "-s"
      then dosymlink b c w
      else err_exit "       ln -s symlinkcontents symlinkfile\n" []
          (C.print_error "Usage: ln oldfile newfile" [] w)
  ln_main args w =
      err_exit "       ln -s symlinkcontents symlinkfile\n" []
        (C.print_error "Usage: ln oldfile newfile" [] w)

  unfoldable pub dorename : String → String → C.World → Run C.World
  dorename oldfile newfile w =
      or_err "%s or %s" (oldfile ∷ newfile ∷ []) (C.rename oldfile newfile w)

  unfoldable pub mv_main : List String → C.World → Run C.World
  unfolding dorename
  mv_main (a ∷ b ∷ []) w = dorename a b w
  mv_main args w = err_exit "Usage: mv oldfile newfile" [] w

  unfoldable pub doremove : String → C.World → Run C.World
  doremove file w = or_err "%s" (file ∷ []) (C.remove file w)

  unfoldable pub rm_loop : List String → C.World → Run C.World
  unfolding doremove
  rm_loop [] w = returns w
  rm_loop (file ∷ files) w = doremove file w >>= rm_loop files

  unfoldable pub rm_main : List String → C.World → Run C.World
  unfolding rm_loop
  rm_main [] w = err_exit "Usage: rm FILES" [] w
  rm_main (file ∷ files) w = rm_loop (file ∷ files) w

  unfoldable pub mkdir_main : List String → C.World → Run C.World
  mkdir_main (dir ∷ []) w = or_err "%s" (dir ∷ []) (C.mkdir dir mode_775 w)
  mkdir_main args w = err_exit "Usage: mkdir DIRECTORY" [] w

  unfoldable pub rmdir_main : List String → C.World → Run C.World
  rmdir_main (dir ∷ []) w = or_err "%s" (dir ∷ []) (C.rmdir dir w)
  rmdir_main args w = err_exit "Usage: rmdir DIRECTORY" [] w

  unfoldable pub pwd_main : C.World → Run C.World
  pwd_main w = elim (C.getcwd (path_max + 1) w).0 [
    | none ↦ err_exit "." [] (C.getcwd (path_max + 1) w).1
    | some buf ↦ returns (C.print "%s\n" (buf ∷ []) (C.getcwd (path_max + 1) w).1)
  ]

  unfoldable pub sync_main : C.World → Run C.World
  sync_main w = returns (C.sync w)

  unfoldable pub true_main : C.World → Run C.World
  true_main w = exits 0 w

  unfoldable pub false_main : C.World → Run C.World
  false_main w = exits 1 w

  -- The shell is still to be written, and returns 1.
  unfoldable pub sh_main : List String → C.World → Run C.World
  sh_main args w = exits 1 w
