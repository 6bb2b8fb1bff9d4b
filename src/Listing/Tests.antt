-- ===== src/Listing/Tests.antt =====
-- A directory for Projects/OS161/bin/ls/ls.c.
use windborne.Base.{◌≡◌, refl, true, false, List, [], ◌∷◌, ◌++◌, length}
use windborne.Base.Int.{pos}
use windborne.Menu.Words.{Bytes, codes}
use windborne.Programs.Process.{exits}
use windborne.Listing.Setting.{directory, Calls, Ls}
use windborne.Listing.Files.{basename}
use windborne.Listing.Options.{ls_main, go_through, options, option}
use windborne.Listing.Directories.{Line, Reads}

-- The names to come, and the lines printed.
record Disk : Type 0 where
  names : List Bytes
  out : List Line

next_name : List Bytes → Bytes
next_name [] = []
next_name (e ∷ es) = e

later_names : List Bytes → List Bytes
later_names [] = []
later_names (e ∷ es) = es

abbrev disk : Calls
disk = record {
  World = Disk;
  open_read = λ path w. (pos 3, w);
  fstat =
      λ fd w. (pos 0, record { st_mode = directory; st_nlink = 1; st_size = 2; st_blocks = 3 }, w);
  getdirentry = λ fd n w. (
    pos (length (next_name w.names)),
    next_name w.names,
    record w { names = later_names w.names },
  );
  close = λ fd w. w;
  printf = λ format args w. record w { out = w.out ++ (format, args) ∷ [] };
  print_error = λ format args w. w;
}

disk-Reads : Reads disk (pos 3)
unfolding next_name later_names
disk-Reads = record {
  entries = λ w. w.names;
  lines = λ w. w.out;
  entry_count = λ w e es same. rw same refl;
  entry_name = λ w e es same. rw same refl;
  rest = λ w e es same. rw same refl;
  end = λ w none_left. rw none_left refl;
  read_keeps = λ w. refl;
  printed = λ format args w. refl;
  print_keeps = λ format args w. refl;
  close_keeps = λ w. refl;
}

abbrev home : Disk
home = record { names = codes ".x" ∷ codes "ab" ∷ codes "c" ∷ []; out = [] }

abbrev start : Ls disk
start = record {
  world = home;
  aopt = false;
  dopt = false;
  lopt = false;
  ropt = false;
  sopt = false;
  first = true;
}

unknown_test : ls_main 4 (codes "-x" ∷ []) home ≡ exits 1 start
unfolding ls_main go_through options option
unknown_test = refl

basename_test : basename (codes "/a/bc") ≡ codes "bc"
unfolding basename
basename_test = refl
