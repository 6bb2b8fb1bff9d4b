-- ===== src/Boot/State.antt =====
-- What the boot and the shutdown of Projects/OS161/kern/main/main.c work on. The structures that
-- boot allocates are reached by pointers, which are NULL before it and after shutdown.
use windborne.Base.{Bool, List, ◌∷◌, String}
use windborne.Base.Int.{ℤ}
use windborne.Platform.{Platform}
use windborne.Memory.Machine.{Ram}
use windborne.Thread.State.{Sys}

-- What other files are asked to do.
pub data Event : Type 0 where
  kprintf : (format : String) → Event
  vfs_setbootfs : (fsname : String) → Event
  vfs_bootstrap dev_bootstrap kprintf_bootstrap lamebus_init autoconf_lamebus : Event
  vfs_clearbootfs vfs_clearcurdir vfs_unmountall : Event

-- `events` has the last call first, each with the interrupt level at which it is made.
pub record Kernel (P : Platform) : Type 0 where
  pub sys : Sys P
  pub ram : Ram
  pub has_runqueue : Bool
  pub has_sleepers : Bool
  pub has_zombies : Bool
  pub events : List (ℤ × Event)

abbrev pub emit : {P : Platform} → Event → Kernel P → Kernel P
emit e k = record k { events = (k.sys.cpu.curspl, e) ∷ k.events }
