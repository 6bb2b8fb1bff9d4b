-- ===== src/Menu/Dispatch.antt =====
-- The command table, `cmd_dispatch`, `menu_execute` and `menu` of Projects/OS161/kern/main/menu.c.
use windborne.Base.{
  ℕ, zero, suc, ◌==◌, ◌&&◌, Bool, true, false, not, List, [], ◌∷◌, ◌++◌, length, leb, Option, none,
  some, Outcome, ok, panic, panicked, out_of_fuel, ◌>>=◌, if◌then◌else◌,
}
use windborne.Memory.Fault.{einval}
use windborne.Menu.Words.{Bytes, codes, bytes_eq, strtok_r}
use windborne.Menu.Interval.{getinterval}
use windborne.Menu.Environment.{
  text, num, Options, Kernel, printfile, catmousesem, catmouselock, createvehicles, arraytest,
  bitmaptest, queuetest, malloctest, mallocstress, nettest, threadtest, threadtest2, threadtest3,
  semtest, locktest, cvtest, fstest, readstress, writestress, writestress2, createstress,
}
use windborne.Menu.Commands.{
  Command, print, cmd_prog, cmd_shell, cmd_chdir, cmd_pwd, cmd_sync, cmd_panic, cmd_quit, cmd_mount,
  cmd_unmount, cmd_bootfs, cmd_kheapstats,
}
use windborne.Menu.Screens.{cmd_opsmenu, cmd_testmenu, cmd_mainmenu}

abbrev pub maxmenuargs : ℕ
maxmenuargs = 16

abbrev pub e2big : ℕ
e2big = 25

abbrev pub blanks : Bytes
blanks = codes " \t"

abbrev pub semicolon : Bytes
semicolon = codes ";"

-- The loop of `cmd_dispatch`; no list where there is a word too many.
unfoldable pub collect : ℕ → Bytes → List Bytes → Outcome (Option (List Bytes))
collect zero s args = out_of_fuel
collect (suc n) s args = elim (strtok_r blanks s) [
  | none ↦ ok (some args)
  | some t ↦ elim (leb maxmenuargs (length args)) [
    | true ↦ ok none
    | false ↦ collect n t.1 (args ++ t.0 ∷ [])
  ]
]

module _ (K : Kernel) (O : Options) where
  unfoldable pub cmdtable : List (Bytes × Command K O)
  cmdtable =
      (codes "?", cmd_mainmenu K O)
      ∷ (codes "h", cmd_mainmenu K O)
      ∷ (codes "help", cmd_mainmenu K O)
      ∷ (codes "?o", cmd_opsmenu K O)
      ∷ (codes "?t", cmd_testmenu K O)
      ∷ (codes "s", cmd_shell K O)
      ∷ (codes "p", cmd_prog K O)
      ∷ (codes "mount", cmd_mount K O)
      ∷ (codes "unmount", cmd_unmount K O)
      ∷ (codes "bootfs", cmd_bootfs K O)
      ∷ (codes "pf", K.test printfile)
      ∷ (codes "cd", cmd_chdir K O)
      ∷ (codes "pwd", cmd_pwd K O)
      ∷ (codes "sync", cmd_sync K O)
      ∷ (codes "panic", cmd_panic K O)
      ∷ (codes "q", cmd_quit K O)
      ∷ (codes "exit", cmd_quit K O)
      ∷ (codes "halt", cmd_quit K O)
      ∷ ((if O.synchprobs
            then (codes "1a", K.test catmousesem)
              ∷ (codes "1b", K.test catmouselock)
              ∷ (codes "1c", K.test createvehicles)
              ∷ []
            else [])
          ++ ((codes "kh", cmd_kheapstats K O)
              ∷ (codes "at", K.test arraytest)
              ∷ (codes "bt", K.test bitmaptest)
              ∷ (codes "qt", K.test queuetest)
              ∷ (codes "km1", K.test malloctest)
              ∷ (codes "km2", K.test mallocstress)
              ∷ ((if O.net then (codes "net", K.test nettest) ∷ [] else [])
                  ++ ((codes "tt1", K.test threadtest)
                      ∷ (codes "tt2", K.test threadtest2)
                      ∷ (codes "tt3", K.test threadtest3)
                      ∷ (codes "sy1", K.test semtest)
                      ∷ (codes "sy2", K.test locktest)
                      ∷ (codes "sy3", K.test cvtest)
                      ∷ (codes "fs1", K.test fstest)
                      ∷ (codes "fs2", K.test readstress)
                      ∷ (codes "fs3", K.test writestress)
                      ∷ (codes "fs4", K.test writestress2)
                      ∷ (codes "fs5", K.test createstress)
                      ∷ []))))

  -- The body of the `if` in the loop over the table.
  unfoldable pub run_timed : Command K O → Command K O
  unfolding getinterval
  run_timed func args w =
      let before = K.gettime w in
      func args before.2 >>= λ r.
      let after = K.gettime r.1 in
      let span = getinterval before.0 before.1 after.0 after.1 in
      ok
        (r.0, K.kprintf "Operation took %lu.%09lu seconds\n" (num span.0 ∷ num span.1 ∷ []) after.2)

  -- The loop over the table, and what follows it.
  unfoldable pub run_entry : List (Bytes × Command K O) → Bytes → Command K O
  unfolding run_timed
  run_entry [] name args w = ok (einval, K.kprintf "%s: Command not found\n" (text name ∷ []) w)
  run_entry ((entry, func) ∷ table) name args w =
      if not (bytes_eq entry []) && bytes_eq name entry
      then run_timed func args w
      else run_entry table name args w

  unfoldable pub run_words : Option (List Bytes) → K.World → Outcome (ℕ × K.World)
  unfolding run_entry cmdtable
  run_words none w = ok (e2big, print K O "Command line has too many words\n" w)
  run_words (some []) w = ok (0, w)
  run_words (some (name ∷ args)) w = run_entry cmdtable name (name ∷ args) w

  -- `cmd_dispatch`, with fuel for a word and the end of the text.
  unfoldable pub cmd_dispatch : Bytes → K.World → Outcome (ℕ × K.World)
  cmd_dispatch cmd w = collect (suc (length cmd)) cmd [] >>= λ found. run_words found w

  -- The body of the loop of `menu_execute`.
  unfoldable pub execute_command : Bool → Bytes → K.World → Outcome K.World
  execute_command isargs command w =
      cmd_dispatch command
        (if isargs then K.kprintf "OS/161 kernel: %s\n" (text command ∷ []) w else w)
      >>= λ r.
          if r.0 == 0
          then ok r.1
          else if isargs
          then panic panicked
          else ok (K.kprintf "Menu command failed: %s\n" (text (K.strerror r.0) ∷ []) r.1)

  unfoldable pub execute_loop : ℕ → Bytes → Bool → K.World → Outcome K.World
  execute_loop zero s isargs w = out_of_fuel
  execute_loop (suc n) s isargs w = elim (strtok_r semicolon s) [
    | none ↦ ok w
    | some t ↦ execute_command isargs t.0 w >>= λ w1. execute_loop n t.1 isargs w1
  ]

  unfoldable pub menu_execute : Bytes → Bool → K.World → Outcome K.World
  menu_execute line isargs w = execute_loop (suc (length line)) line isargs w

  -- `n` rounds of the loop of `menu`.
  unfoldable pub menu_rounds : ℕ → K.World → Outcome K.World
  menu_rounds zero w = ok w
  menu_rounds (suc n) w =
      let typed = K.kgets 64 (print K O "OS/161 kernel [? for menu]: " w) in
      menu_execute typed.0 false typed.1 >>= λ w1. menu_rounds n w1

  unfoldable pub menu : ℕ → Bytes → K.World → Outcome K.World
  menu rounds args w = menu_execute args true w >>= λ w1. menu_rounds rounds w1
