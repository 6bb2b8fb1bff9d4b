-- ===== src/Listing/Options.antt =====
-- `option` and `main` of Projects/OS161/bin/ls/ls.c. `args` are the words behind the program's name.
use windborne.Base.{ℕ, ◌+◌, ◌==◌, ltb, Bool, true, false, List, [], ◌∷◌, if◌then◌else◌}
use windborne.Menu.Words.{Bytes, codes}
use windborne.Menu.Environment.{num}
use windborne.Programs.Process.{Run, returns, ◌>>=◌}
use windborne.Listing.Setting.{Calls, Ls, fail}
use windborne.Listing.Files.{listitem}

abbrev pub is_option : Bytes → Bool
is_option [] = false
is_option (c ∷ s) = c == b'-'

abbrev pub items : List Bytes → ℕ
items [] = 0
items (arg ∷ args) = if is_option arg then items args else items args + 1

module _ {C : Calls} where
  unfoldable pub option : ℕ → Ls C → Run (Ls C)
  option ch s =
      if ch == b'a'
      then returns (record s { aopt = true })
      else if ch == b'd'
      then returns (record s { dopt = true })
      else if ch == b'l'
      then returns (record s { lopt = true })
      else if ch == b'R'
      then returns (record s { ropt = true })
      else if ch == b's'
      then returns (record s { sopt = true })
      else fail "Unknown option -%c" (num ch ∷ []) s

  unfoldable pub options : Bytes → Ls C → Run (Ls C)
  unfolding option
  options [] s = returns s
  options (ch ∷ chs) s = option ch s >>= options chs

  -- The second loop of `main`, with the number of items.
  unfoldable pub go_through : ℕ → ℕ → List Bytes → Ls C → Run (Ls C)
  unfolding options listitem
  go_through fuel count [] s = returns s
  go_through fuel count ([] ∷ args) s =
      listitem fuel [] (ltb 1 count) s >>= go_through fuel count args
  go_through fuel count ((c ∷ arg) ∷ args) s =
      (if c == b'-' then options arg s else listitem fuel (c ∷ arg) (ltb 1 count) s)
      >>= go_through fuel count args

  unfoldable pub ls_main : ℕ → List Bytes → C.World → Run (Ls C)
  unfolding go_through
  ls_main fuel args w =
      let start : Ls C = record {
        world = w;
        aopt = false;
        dopt = false;
        lopt = false;
        ropt = false;
        sopt = false;
        first = true;
      } in
      go_through fuel (items args) args start >>= λ s.
      if items args == 0 then listitem fuel (codes ".") false s else returns s
