-- ===== src/Listing/Directories.antt =====
-- What `listdir` of Projects/OS161/bin/ls/ls.c prints of a directory.
use windborne.Base.{
  ◌<◌, ◌≤◌, ◌≡◌, Bool, true, false, not, ◌||◌, List, [], ◌∷◌, ◌++◌, length, String, if◌then◌else◌,
}
use windborne.Base.Int.{ℤ, pos}
use windborne.Menu.Words.{Bytes, contains}
use windborne.Menu.Environment.{Arg, text}
use windborne.Programs.Process.{Run, returns}
use windborne.Listing.Setting.{Calls, Ls, printf}
use windborne.Listing.Files.{is_hidden, printheader}

-- A line, with its format.
abbrev pub Line : Type 0
Line = String × List Arg

-- The lines for the names that are shown.
abbrev pub shown : Bool → List Bytes → List Line
shown aopt [] = []
shown aopt (name ∷ names) =
    if aopt || not (is_hidden name)
    then ("%s\n", text name ∷ []) ∷ shown aopt names
    else shown aopt names

-- The lines before a listing.
abbrev pub header : Bool → Bool → Bytes → List Line
header false first path = []
header true true path = ("%s:\n", text path ∷ []) ∷ []
header true false path = ("\n", []) ∷ ("%s:\n", text path ∷ []) ∷ []

-- A directory entry: a name of at least one byte, without a slash, for which the buffer of the full name has space.
abbrev pub IsEntry : Bytes → Bytes → Type 0
IsEntry path name =
    (0 < length name) × (contains name b'/' ≡ false) × (length (path ++ b'/' ∷ name) ≤ 1023)

module _ (C : Calls) where
  -- An open directory that is read without errors: `entries` are those to come, `lines` what has been printed.
  pub record Reads (fd : ℤ) : Type 0 where
    pub entries : C.World → List Bytes
    pub lines : C.World → List Line
    pub entry_count :
        (w : C.World) (e : Bytes) (es : List Bytes)
        → entries w ≡ e ∷ es
        → (C.getdirentry fd 1023 w).0 ≡ pos (length e)
    pub entry_name :
        (w : C.World) (e : Bytes) (es : List Bytes)
        → entries w ≡ e ∷ es
        → (C.getdirentry fd 1023 w).1 ≡ e
    pub rest :
        (w : C.World) (e : Bytes) (es : List Bytes)
        → entries w ≡ e ∷ es
        → entries (C.getdirentry fd 1023 w).2 ≡ es
    pub end : (w : C.World) → entries w ≡ [] → (C.getdirentry fd 1023 w).0 ≡ pos 0
    pub read_keeps : (w : C.World) → lines (C.getdirentry fd 1023 w).2 ≡ lines w
    pub printed :
        (format : String) (args : List Arg) (w : C.World)
        → lines (C.printf format args w) ≡ lines w ++ (format, args) ∷ []
    pub print_keeps :
        (format : String) (args : List Arg) (w : C.World)
        → entries (C.printf format args w) ≡ entries w
    pub close_keeps : (w : C.World) → lines (C.close fd w) ≡ lines w

  module _ (fd : ℤ) (D : Reads fd) (path : Bytes) where
    -- The run returns with the lines printed.
    pub record Prints (s : Ls C) (more : List Line) (o : Run (Ls C)) : Type 0 where
      pub state : Ls C
      pub result : o ≡ returns state
      pub output : D.lines state.world ≡ D.lines s.world ++ more

    -- The state in which `listdir` opens the directory.
    abbrev pub begun : Bool → Ls C → Ls C
    begun showheader s = if showheader then printheader path s else s
