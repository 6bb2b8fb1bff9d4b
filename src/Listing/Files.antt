-- ===== src/Listing/Files.antt =====
-- The functions of Projects/OS161/bin/ls/ls.c below `main`. `fuel` is for the rounds of the loops over
-- a directory, and in `recurse_loop` also for its depth.
use windborne.Base.{
  ℕ, zero, suc, ◌==◌, ◌||◌, ◌&&◌, not, Bool, true, false, [], ◌∷◌, ◌++◌, take, if◌then◌else◌,
}
use windborne.Base.Int.{ℤ, pos, ltb_ℤ}
use windborne.Menu.Words.{Bytes, codes, contains, bytes_eq}
use windborne.Menu.Environment.{text, num}
use windborne.Programs.Process.{Run, returns, unfinished, ◌>>=◌}
use windborne.Listing.Setting.{
  Mode, regular, directory, symlink, character, block, unknown, Stat, Calls, Ls, printf, fail,
}

-- Behind the last slash.
unfoldable pub basename : Bytes → Bytes
basename [] = []
basename (c ∷ s) =
    let rest = basename s in if contains s b'/' then rest else if c == b'/' then s else c ∷ s

-- `snprintf(newpath, sizeof(newpath), "%s/%s", path, buf)`
unfoldable pub new_path : Bytes → Bytes → Bytes
new_path path name = take 1023 (path ++ b'/' ∷ name)

-- `buf[0]=='.'`
abbrev pub is_hidden : Bytes → Bool
is_hidden [] = false
is_hidden (c ∷ s) = c == b'.'

abbrev pub type_char : Mode → ℕ
type_char regular = b'-'
type_char directory = b'd'
type_char symlink = b'l'
type_char character = b'c'
type_char block = b'b'
type_char unknown = b'?'

abbrev pub is_directory : Mode → Bool
is_directory directory = true
is_directory _ = false

module _ {C : Calls} where
  -- `open`, the test of its result, and what follows with the descriptor.
  abbrev pub opening : Bytes → (ℤ → Ls C → Run (Ls C)) → Ls C → Run (Ls C)
  opening path next s =
      let r = C.open_read path s.world in
      if ltb_ℤ r.0 (pos 0)
      then fail "%s" (text path ∷ []) (record s { world = r.1 })
      else next r.0 (record s { world = r.1 })

  abbrev pub closing : ℤ → Ls C → Ls C
  closing fd s = record s { world = C.close fd s.world }

  -- `open`, `fstat` and `close` of `isdir` and `print`, and what follows with the structure.
  unfoldable pub stat_then : Bytes → (Stat → Ls C → Run (Ls C)) → Ls C → Run (Ls C)
  stat_then path next = opening path λ fd s.
      let r = C.fstat fd s.world in
      if ltb_ℤ r.0 (pos 0)
      then fail "%s: fstat" (text path ∷ []) (record s { world = r.2 })
      else next r.1 (closing fd (record s { world = r.2 }))

  unfoldable pub isdir_then : Bytes → (Bool → Ls C → Run (Ls C)) → Ls C → Run (Ls C)
  unfolding stat_then
  isdir_then path next = stat_then path (λ st. next (is_directory st.st_mode))

  unfoldable pub printheader : Bytes → Ls C → Ls C
  printheader file s =
      printf "%s:\n" (text file ∷ [])
        (if s.first then record s { first = false } else printf "\n" [] s)

  unfoldable pub print_name : Bytes → Ls C → Run (Ls C)
  print_name path s = returns (printf "%s\n" (text (basename path) ∷ []) s)

  unfoldable pub print_blocks : Stat → Ls C → Ls C
  print_blocks st s = if s.sopt then printf "%3d " (num st.st_blocks ∷ []) s else s

  unfoldable pub print_long : Stat → Ls C → Ls C
  print_long st s =
      if s.lopt
      then printf "%crwx------ %2d root  %-8u"
          (num (type_char st.st_mode) ∷ num st.st_nlink ∷ num st.st_size ∷ []) s
      else s

  unfoldable pub print : Bytes → Ls C → Run (Ls C)
  unfolding stat_then print_blocks print_long
  print path s =
      if s.lopt || s.sopt
      then stat_then path (λ st s1. print_name path (print_long st (print_blocks st s1))) s
      else print_name path s

  -- The loop of `listdir`, and what follows it.
  unfoldable pub listdir_loop : ℕ → Bytes → ℤ → Ls C → Run (Ls C)
  listdir_loop zero path fd s = unfinished
  listdir_loop (suc n) path fd s =
      let r = C.getdirentry fd 1023 s.world in
      let s1 = record s { world = r.2 } in
      elim (ltb_ℤ (pos 0) r.0) [
        | true ↦
            (if s.aopt || not (is_hidden r.1) then print (new_path path r.1) s1 else returns s1)
            >>= listdir_loop n path fd
        | false ↦
            if ltb_ℤ r.0 (pos 0)
            then fail "%s: getdirentry" (text path ∷ []) s1
            else returns (closing fd s1)
      ]

  unfoldable pub listdir : ℕ → Bytes → Bool → Ls C → Run (Ls C)
  listdir fuel path showheader s =
      opening path (listdir_loop fuel path) (if showheader then printheader path s else s)

  -- The loop of `recursedir`, and what follows it; a call of `recursedir` inside is this loop on
  -- the directory that it opens.
  unfoldable pub recurse_loop : ℕ → Bytes → ℤ → Ls C → Run (Ls C)
  unfolding listdir
  recurse_loop zero path fd s = unfinished
  recurse_loop (suc n) path fd s =
      let r = C.getdirentry fd 1023 s.world in
      let s1 = record s { world = r.2 } in
      let name = r.1 in
      let below = new_path path name in
      elim (ltb_ℤ (pos 0) r.0) [
        | true ↦
            elim (not s.aopt && is_hidden name
              || (bytes_eq name (codes ".") || bytes_eq name (codes ".."))) [
                | true ↦ recurse_loop n path fd s1
                | false ↦
                    isdir_then below
                      (λ d s2. elim d [
                        | false ↦ recurse_loop n path fd s2
                        | true ↦
                            (listdir n below true s2 >>= λ s3. elim s3.ropt [
                              | true ↦ opening below (recurse_loop n below) s3
                              | false ↦ returns s3
                            ])
                            >>= recurse_loop n path fd
                      ])
                      s1
              ]
        | false ↦
            if ltb_ℤ r.0 (pos 0) then fail "%s" (text path ∷ []) s1 else returns (closing fd s1)
      ]

  unfoldable pub recursedir : ℕ → Bytes → Ls C → Run (Ls C)
  unfolding recurse_loop
  recursedir fuel path = opening path (recurse_loop fuel path)

  unfoldable pub listitem : ℕ → Bytes → Bool → Ls C → Run (Ls C)
  unfolding isdir_then listdir recursedir print
  listitem fuel path showheader s =
      let list_directory = λ (s1 : Ls C).
        (listdir fuel path (showheader || s1.ropt) s1 >>= λ s2.
        if s2.ropt then recursedir fuel path s2 else returns s2) in
      if s.dopt
      then print path s
      else isdir_then path (λ d s1. if d then list_directory s1 else print path s1) s
