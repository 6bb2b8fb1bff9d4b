-- ===== src/Menu/Commands.antt =====
-- The operations of Projects/OS161/kern/main/menu.c. `args` are the words of the command, its name
-- first, and `nargs` is their number.
use windborne.Base.{
  ℕ, ◌==◌, not, List, [], ◌∷◌, length, get_elem?, leb, ltb, String, Outcome, ok, panic, panicked,
  bad_pointer, check, deref, ◌>>=◌, ◌>>◌, if◌then◌else◌,
}
use windborne.Memory.Fault.{einval}
use windborne.Menu.Words.{Bytes, codes, bytes_eq}
use windborne.Menu.Environment.{text, Options, Kernel}

abbrev pub path_max : ℕ
path_max = 1024

-- `if (device[strlen(device)-1]==':') device[strlen(device)-1] = 0;`: the byte before an empty text
-- is not the text's.
abbrev pub strip_colon : Bytes → Outcome Bytes
strip_colon [] = panic bad_pointer
strip_colon (c ∷ []) = if c == b':' then ok [] else ok (c ∷ [])
strip_colon (c ∷ (d ∷ s)) = strip_colon (d ∷ s) >>= λ r. ok (c ∷ r)

module _ (K : Kernel) (O : Options) where
  abbrev pub Command : Type 0
  Command = List Bytes → K.World → Outcome (ℕ × K.World)

  abbrev pub print : String → K.World → K.World
  print s w = K.kprintf s [] w

  -- `args[i]`
  abbrev pub arg : List Bytes → ℕ → Outcome Bytes
  arg args i = deref (get_elem? args i)

  unfoldable pub cmd_progthread : List Bytes → K.World → Outcome K.World
  cmd_progthread args w = do
    check (leb 1 (length args))
    let w1 =
        if ltb 2 (length args)
        then print "Warning: argument passing from menu not supported\n" w
        else w
    name ← arg args 0
    check (ltb (length name) 128)
    let (result, w2) = K.runprogram name w1
    ok (
        if result == 0
        then w2
        else K.kprintf "Running program %s failed: %s\n" (text name ∷ text (K.strerror result) ∷ [])
            w2)

  unfoldable pub common_prog : Command
  unfolding cmd_progthread
  common_prog args w = do
    let w1 =
        if O.synchprobs
        then print "Warning: this probably won't work with a synchronization-problems kernel.\n" w
        else w
    name ← arg args 0
    let (result, w2) = K.thread_fork name (cmd_progthread args) w1
    if result == 0
        then ok (0, w2)
        else ok (result, K.kprintf "thread_fork failed: %s\n" (text (K.strerror result) ∷ []) w2)

  -- `args++; nargs--;`
  unfoldable pub cmd_prog : Command
  unfolding common_prog
  cmd_prog [] w = ok (einval, print "Usage: p program [arguments]\n" w)
  cmd_prog (p ∷ []) w = ok (einval, print "Usage: p program [arguments]\n" w)
  cmd_prog (p ∷ (program ∷ args)) w = common_prog (program ∷ args) w

  unfoldable pub cmd_shell : Command
  unfolding common_prog
  cmd_shell args w =
      if not (length args == 1)
      then ok (einval, print "Usage: s\n" w)
      else common_prog (codes "/bin/sh" ∷ []) w

  unfoldable pub cmd_chdir : Command
  cmd_chdir args w =
      if not (length args == 2)
      then ok (einval, print "Usage: cd directory\n" w)
      else arg args 1 >>= λ path. ok (K.vfs_chdir path w)

  unfoldable pub cmd_pwd : Command
  cmd_pwd args w = do
    let (result, buf, w1) = K.vfs_getcwd path_max w
    if result == 0
        then ok (0, K.kprintf "%s\n" (text buf ∷ []) w1)
        else ok (result, K.kprintf "vfs_getcwd failed (%s)\n" (text (K.strerror result) ∷ []) w1)

  unfoldable pub cmd_sync : Command
  cmd_sync args w = ok (0, K.vfs_sync w)

  unfoldable pub cmd_panic : Command
  cmd_panic args w = panic panicked

  -- RB_POWEROFF is 2.
  unfoldable pub cmd_quit : Command
  cmd_quit args w = K.sys_reboot 2 (K.vfs_sync w) >>= λ w1. K.thread_exit w1 >>= λ w2. ok (0, w2)

  abbrev pub mounttable : List (Bytes × (Bytes → K.World → ℕ × K.World))
  mounttable = if O.sfs then (codes "sfs", K.sfs_mount) ∷ [] else []

  unfoldable pub mount_from :
      List (Bytes × (Bytes → K.World → ℕ × K.World)) → Bytes → Bytes → K.World → ℕ × K.World
  mount_from [] fstype device w =
      (einval, K.kprintf "Unknown filesystem type %s\n" (text fstype ∷ []) w)
  mount_from ((name, func) ∷ table) fstype device w =
      if bytes_eq name fstype then func device w else mount_from table fstype device w

  unfoldable pub cmd_mount : Command
  unfolding mount_from
  cmd_mount args w =
      if not (length args == 3)
      then ok (einval, print "Usage: mount fstype device:\n" w)
      else arg args 1 >>= λ fstype. arg args 2 >>= λ word.
          strip_colon word >>= λ device. ok (mount_from mounttable fstype device w)

  unfoldable pub cmd_unmount : Command
  cmd_unmount args w =
      if not (length args == 2)
      then ok (einval, print "Usage: unmount device:\n" w)
      else arg args 1 >>= λ word. strip_colon word >>= λ device. ok (K.vfs_unmount device w)

  unfoldable pub cmd_bootfs : Command
  cmd_bootfs args w =
      if not (length args == 2)
      then ok (einval, print "Usage: bootfs device\n" w)
      else arg args 1 >>= λ word. strip_colon word >>= λ device. ok (K.vfs_setbootfs device w)

  unfoldable pub cmd_kheapstats : Command
  cmd_kheapstats args w = ok (0, K.kheap_printstats w)
