-- ===== src/Menu/Tests.antt =====
-- Lines for the menu of Projects/OS161/kern/main/menu.c, and the theorems at such lines.
use windborne.Base.{
  ◌↔◌, ℕ, ◌+◌, ◌*◌, ◌<◌, ◌≡◌, refl, arith, true, false, List, [], ◌∷◌, length, some, ok,
}
use windborne.Menu.Words.{Bytes, codes, strtok_r}
use windborne.Menu.Interval.{getinterval, getinterval_lem, sub32, billion}
use windborne.Menu.Environment.{Options, Kernel}
use windborne.Menu.Commands.{cmd_mount, cmd_unmount, cmd_bootfs, mount_from}
use windborne.Menu.Screens.{showmenu}
use windborne.Menu.Dispatch.{
  collect, blanks, semicolon, cmdtable, run_timed, run_entry, run_words, cmd_dispatch, menu_execute,
}
use windborne.Menu.Splitting.{words, collect_lem}
use windborne.Menu.Running.{Dispatches, cmd_dispatch_lem}
use windborne.Menu.Lines.{typed, Succeed, menu_execute-typed, menu_execute_booted}
use windborne.Menu.Columns.{columns, showmenu_lem}
use windborne.Menu.Devices.{IsBare, colon_optional}

-- A kernel that keeps the formats of what it prints and the devices it is given.
abbrev Log : Type 0
Log = List Bytes

abbrev device_call : Bytes → Log → ℕ × Log
device_call device w = (0, device ∷ w)

abbrev logging : Kernel
logging = record {
  World = Log;
  kprintf = λ format args w. codes format ∷ w;
  kgets = λ n w. (codes "sync", w);
  strerror = λ n. codes "Error";
  gettime = λ w. (0, length w, w);
  runprogram = λ name w. (0, name ∷ w);
  thread_fork = λ name entry w. (0, name ∷ w);
  thread_exit = λ w. ok w;
  sys_reboot = λ code w. ok w;
  vfs_chdir = device_call;
  vfs_unmount = device_call;
  vfs_setbootfs = device_call;
  sfs_mount = device_call;
  vfs_getcwd = λ n w. (0, codes "emu0:", w);
  vfs_sync = λ w. w;
  kheap_printstats = λ w. w;
  test = λ t args w. ok (0, w);
}

abbrev plain : Options
plain = record { synchprobs = true; net = false; sfs = true }

words_test :
    words blanks (codes " mount  sfs\tlhd0: ") ≡ codes "mount" ∷ codes "sfs" ∷ codes "lhd0:" ∷ []
words_test = refl

collect_lem_example : collect 8 (codes "cd  /x ") [] ≡ ok (some (codes "cd" ∷ codes "/x" ∷ []))
collect_lem_example = collect_lem 8 (codes "cd  /x ") [] (omega arith) (omega arith)

getinterval_lem_example :
    ((getinterval 5 900000000 7 100000000).1 < billion)
    × (5 * billion
          + 900000000
          + ((getinterval 5 900000000 7 100000000).0 * billion
              + (getinterval 5 900000000 7 100000000).1)
        ≡ 7 * billion + 100000000)
getinterval_lem_example =
    getinterval_lem 5 900000000 7 100000000 (omega arith) (omega arith) (omega arith) (omega arith)

cmd_dispatch_lem_example :
    Dispatches logging plain
      (codes "mount sfs lhd0:")
      []
      (cmd_dispatch logging plain (codes "mount sfs lhd0:") [])
cmd_dispatch_lem_example = cmd_dispatch_lem logging plain (codes "mount sfs lhd0:") []

menu_execute-typed_example :
    menu_execute logging plain (codes "sync; none; sync") false []
    ≡ typed logging plain (words semicolon (codes "sync; none; sync")) []
menu_execute-typed_example = menu_execute-typed logging plain (codes "sync; none; sync") []

menu_execute_booted_example :
    (menu_execute logging plain (codes "sync;sync") true [] ≡ ok [])
    ↔ Succeed logging plain (words semicolon (codes "sync;sync")) [] []
menu_execute_booted_example = menu_execute_booted logging plain (codes "sync;sync") [] []

showmenu_lem_example :
    showmenu logging (codes "m") (codes "a" ∷ codes "b" ∷ codes "c" ∷ []) []
    ≡ ok (
        codes "\n"
        ∷ columns logging
            (codes "a" ∷ codes "b" ∷ [])
            (codes "c" ∷ [])
            (codes "%s\n" ∷ codes "\n" ∷ []))
showmenu_lem_example = showmenu_lem logging (codes "m") (codes "a" ∷ codes "b" ∷ codes "c" ∷ []) []

lhd0-IsBare : IsBare (codes "lhd0")
lhd0-IsBare = λ e. absurd (omega (arith, e))

colon_optional_example :
    ((fstype : Bytes)
      → cmd_mount logging plain (codes "unmount" ∷ fstype ∷ codes "lhd0:" ∷ []) []
        ≡ cmd_mount logging plain (codes "unmount" ∷ fstype ∷ codes "lhd0" ∷ []) [])
    × (cmd_unmount logging plain (codes "unmount" ∷ codes "lhd0:" ∷ []) []
        ≡ ok (0, codes "lhd0" ∷ []))
    × (cmd_unmount logging plain (codes "unmount" ∷ codes "lhd0" ∷ []) []
        ≡ ok (0, codes "lhd0" ∷ []))
    × (cmd_bootfs logging plain (codes "unmount" ∷ codes "lhd0:" ∷ []) []
        ≡ ok (0, codes "lhd0" ∷ []))
    × (cmd_bootfs logging plain (codes "unmount" ∷ codes "lhd0" ∷ []) []
        ≡ ok (0, codes "lhd0" ∷ []))
colon_optional_example =
    colon_optional logging plain (codes "lhd0") lhd0-IsBare (codes "unmount") []

unknown_test :
    cmd_dispatch logging plain (codes "nosuch x") [] ≡ ok (1, codes "%s: Command not found\n" ∷ [])
unfolding cmd_dispatch collect strtok_r run_words run_entry cmdtable
unknown_test = refl

mount_test :
    cmd_dispatch logging plain (codes "mount sfs lhd0:") []
    ≡ ok (0, codes "Operation took %lu.%09lu seconds\n" ∷ codes "lhd0" ∷ [])
unfolding cmd_dispatch collect strtok_r run_words run_entry cmdtable run_timed cmd_mount mount_from
    sub32
mount_test = refl
