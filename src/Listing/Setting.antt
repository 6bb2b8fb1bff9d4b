-- ===== src/Listing/Setting.antt =====
-- The calls that Projects/OS161/bin/ls/ls.c makes, and its state.
use windborne.Base.{ℕ, Bool, List, String}
use windborne.Base.Int.{ℤ}
use windborne.Menu.Words.{Bytes}
use windborne.Menu.Environment.{Arg}
use windborne.Programs.Process.{Run, exits}

-- What the macros on `st_mode` tell apart.
pub data Mode : Type 0 where
  regular directory symlink character block unknown : Mode

pub record Stat : Type 0 where
  pub st_mode : Mode
  pub st_nlink : ℕ
  pub st_size : ℕ
  pub st_blocks : ℕ

-- `getdirentry fd n` gives the number that C sees, and the name that it puts into the buffer.
pub record Calls : Type 1 where
  pub World : Type 0
  pub open_read : Bytes → World → ℤ × World
  pub fstat : ℤ → World → ℤ × Stat × World
  pub getdirentry : ℤ → ℕ → World → ℤ × Bytes × World
  pub close : ℤ → World → World
  pub printf : String → List Arg → World → World
  pub print_error : String → List Arg → World → World

-- `first` is the variable of `printheader`.
pub record Ls (C : Calls) : Type 0 where
  pub world : C.World
  pub aopt : Bool
  pub dopt : Bool
  pub lopt : Bool
  pub ropt : Bool
  pub sopt : Bool
  pub first : Bool

module _ {C : Calls} where
  abbrev pub printf : String → List Arg → Ls C → Ls C
  printf format args s = record s { world = C.printf format args s.world }

  abbrev pub fail : String → List Arg → Ls C → Run (Ls C)
  fail format args s = exits 1 (record s { world = C.print_error format args s.world })
