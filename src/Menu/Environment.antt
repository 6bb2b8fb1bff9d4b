-- ===== src/Menu/Environment.antt =====
-- What Projects/OS161/kern/main/menu.c calls, and its options.
use windborne.Base.{ℕ, Bool, List, String, Outcome}
use windborne.Menu.Words.{Bytes}

-- An argument of `kprintf`.
pub data Arg : Type 0 where
  text : Bytes → Arg
  num : ℕ → Arg

-- The commands of other files.
pub data Test : Type 0 where
  printfile catmousesem catmouselock createvehicles : Test
  arraytest bitmaptest queuetest malloctest mallocstress nettest : Test
  threadtest threadtest2 threadtest3 semtest locktest cvtest : Test
  fstest readstress writestress writestress2 createstress : Test

-- OPT_SYNCHPROBS, OPT_NET, OPT_SFS.
pub record Options : Type 0 where
  pub synchprobs : Bool
  pub net : Bool
  pub sfs : Bool

-- `thread_fork` takes the new thread's work as one function. `vfs_getcwd n` gives a result and the
-- bytes that it puts into a buffer of `n` bytes.
pub record Kernel : Type 1 where
  pub World : Type 0
  pub kprintf : String → List Arg → World → World
  pub kgets : ℕ → World → Bytes × World
  pub strerror : ℕ → Bytes
  pub gettime : World → ℕ × ℕ × World
  pub runprogram : Bytes → World → ℕ × World
  pub thread_fork : Bytes → (World → Outcome World) → World → ℕ × World
  pub thread_exit : World → Outcome World
  pub sys_reboot : ℕ → World → Outcome World
  pub vfs_chdir : Bytes → World → ℕ × World
  pub vfs_unmount : Bytes → World → ℕ × World
  pub vfs_setbootfs : Bytes → World → ℕ × World
  pub sfs_mount : Bytes → World → ℕ × World
  pub vfs_getcwd : ℕ → World → ℕ × Bytes × World
  pub vfs_sync : World → World
  pub kheap_printstats : World → World
  pub test : Test → List Bytes → World → Outcome (ℕ × World)
