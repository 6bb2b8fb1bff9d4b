-- ===== src/Menu/Screens.antt =====
-- The menus of Projects/OS161/kern/main/menu.c and how they are printed.
use windborne.Base.{
  ℕ, zero, suc, ◌+◌, ◌/◌, List, [], ◌∷◌, ◌++◌, map, length, get_elem?, ltb, Outcome, ok, deref,
  ◌>>=◌, if◌then◌else◌,
}
use windborne.Menu.Words.{Bytes, codes}
use windborne.Menu.Environment.{text, Options, Kernel}
use windborne.Menu.Commands.{Command, print}

module _ (K : Kernel) where
  -- The loop over the rows, of which `n` are left, from row `i`.
  unfoldable pub show_rows : ℕ → ℕ → ℕ → List Bytes → K.World → Outcome K.World
  show_rows zero i half x w = ok w
  show_rows (suc n) i half x w = deref (get_elem? x i) >>= λ item.
      let w1 = K.kprintf "    %-36s" (text item ∷ []) w in
      (if ltb (i + half) (length x)
        then (deref (get_elem? x (i + half)) >>= λ other. ok (K.kprintf "%s" (text other ∷ []) w1))
        else ok w1)
      >>= λ w2. show_rows n (i + 1) half x (K.kprintf "\n" [] w2)

  unfoldable pub showmenu : Bytes → List Bytes → K.World → Outcome K.World
  showmenu name x w =
      let half = (length x + 1) / 2 in
      let w1 = K.kprintf "%s\n" (text name ∷ []) (K.kprintf "\n" [] w) in
      show_rows half 0 half x w1 >>= λ w2. ok (K.kprintf "\n" [] w2)

abbrev pub opsmenu : List Bytes
opsmenu = map codes (
    "[s]       Shell                     " ∷ "[p]       Other program             "
    ∷ "[mount]   Mount a filesystem        " ∷ "[unmount] Unmount a filesystem      "
    ∷ "[bootfs]  Set \"boot\" filesystem     " ∷ "[pf]      Print a file              "
    ∷ "[cd]      Change directory          " ∷ "[pwd]     Print current directory   "
    ∷ "[sync]    Sync filesystems          " ∷ "[panic]   Intentional panic         "
    ∷ "[q]       Quit and shut down        " ∷ [])

module _ (O : Options) where
  abbrev pub testmenu : List Bytes
  testmenu = map codes (
      "[at]  Array test                    "
      ∷ "[bt]  Bitmap test                   "
      ∷ "[qt]  Queue test                    "
      ∷ "[km1] Kernel malloc test            "
      ∷ "[km2] kmalloc stress test           "
      ∷ "[tt1] Thread test 1                 "
      ∷ "[tt2] Thread test 2                 "
      ∷ "[tt3] Thread test 3                 "
      ∷ ((if O.net then "[net] Network test                  " ∷ [] else [])
          ++ ("[sy1] Semaphore test                " ∷ "[sy2] Lock test             (1)     "
              ∷ "[sy3] CV test               (1)     " ∷ "[fs1] Filesystem test               "
              ∷ "[fs2] FS read stress        (4)     " ∷ "[fs3] FS write stress       (4)     "
              ∷ "[fs4] FS write stress 2     (4)     " ∷ "[fs5] FS create stress      (4)     "
              ∷ [])))

  abbrev pub mainmenu : List Bytes
  mainmenu = map codes (
      "[?o] Operations menu                "
      ∷ "[?t] Tests menu                     "
      ∷ ((if O.synchprobs
            then "[1a] Cat/mouse with semaphores      " ∷ "[1b] Cat/mouse with locks and CVs   "
              ∷ "[1c] Stoplight                      " ∷ []
            else [])
          ++ ("[kh] Kernel heap stats              " ∷ "[q] Quit and shut down              "
              ∷ [])))

module _ (K : Kernel) (O : Options) where
  unfoldable pub cmd_opsmenu : Command K O
  unfolding showmenu
  cmd_opsmenu args w = showmenu K (codes "OS/161 operations menu") opsmenu w >>= λ w1. ok (0, w1)

  unfoldable pub cmd_testmenu : Command K O
  unfolding showmenu
  cmd_testmenu args w = showmenu K (codes "OS/161 tests menu") (testmenu O) w >>= λ w1. ok (
    0,
    print K O "\n" (
        print K O "    (4) These tests will fail until you finish the file system assignment.\n"
          (print K O "    (1) These tests will fail until you finish the synch assignment.\n" w1)),
  )

  unfoldable pub cmd_mainmenu : Command K O
  unfolding showmenu
  cmd_mainmenu args w = showmenu K (codes "OS/161 kernel menu") (mainmenu O) w >>= λ w1. ok (0, w1)
