-- ===== src/Boot/Shutdown.antt =====
-- `shutdown` and `sys_reboot` of Projects/OS161/kern/main/main.c, `scheduler_shutdown` of
-- kern/thread/scheduler.c, `thread_shutdown` of kern/thread/thread.c, and `md_poweroff`,
-- `md_reboot`, `md_halt` of kern/mips/lamebus_mips.c.
use windborne.Base.{
  ℕ, zero, suc, Bool, true, false, Option, none, some, Outcome, ok, panic, panicked, bad_pointer,
  check, ◌>>=◌, ◌>>◌, if◌then◌else◌,
}
use windborne.Base.Int.{ℤ, pos}
use windborne.Spl.{spl_raised, splhigh, cpu_halt}
use windborne.Platform.{Platform}
use windborne.Memory.Fault.{einval}
use windborne.Thread.Scheduler.{scheduler_killall}
use windborne.Boot.State.{Kernel, kprintf, vfs_clearbootfs, vfs_clearcurdir, vfs_unmountall, emit}

-- RB_REBOOT, RB_HALT, RB_POWEROFF
pub data Request : Type 0 where
  rb_reboot rb_halt rb_poweroff : Request

abbrev pub request : ℤ → Option Request
request (pos zero) = some rb_reboot
request (pos (suc zero)) = some rb_halt
request (pos (suc (suc zero))) = some rb_poweroff
request code = none

-- The call returns a code, the processor waits for ever with interrupts off, or the power is off.
pub data Ending (P : Platform) : Type 0 where
  returned : (code : ℕ) → Kernel P → Ending P
  halted powered_off : Kernel P → Ending P

-- A pointer that is not NULL.
abbrev pub valid : Bool → Outcome (Unit {0})
valid true = ok tt
valid false = panic bad_pointer

module _ (P : Platform) where
  -- "The queue objects to being destroyed if it's got stuff in it."
  unfoldable pub scheduler_shutdown : Kernel P → Outcome (Kernel P)
  unfolding scheduler_killall
  scheduler_shutdown k = do
    valid k.has_runqueue
    s ← scheduler_killall P k.sys
    check (spl_raised s.cpu)
    check (P.q_empty s.runqueue)
    ok (record k { sys = s; has_runqueue = false })

  -- The contents of an array that is destroyed are lost.
  unfoldable pub thread_shutdown : Kernel P → Outcome (Kernel P)
  thread_shutdown k = do
    valid k.has_sleepers
    valid k.has_zombies
    ok (record k { has_sleepers = false; has_zombies = false })

  unfoldable pub shutdown : Kernel P → Outcome (Kernel P)
  unfolding splhigh scheduler_shutdown thread_shutdown
  shutdown k = do
    let k1 =
        emit vfs_unmountall
          (emit vfs_clearcurdir (emit vfs_clearbootfs (emit (kprintf "Shutting down.\n") k)))
    let k2 = record k1 { sys = record (k1.sys) { cpu = (splhigh P.spl_high k1.sys.cpu).1 } }
    k3 ← scheduler_shutdown k2
    thread_shutdown k3

  -- `stays` says whether the power stays on when `lamebus_poweroff` is called, which then returns.
  module _ (stays : Bool) where
    -- `none` where the call returns.
    unfoldable pub md_poweroff : Kernel P → Option (Ending P)
    md_poweroff k = if stays then none else some (powered_off k)

    unfoldable pub md_reboot : Kernel P → Option (Ending P)
    unfolding md_poweroff
    md_reboot k = md_poweroff (emit (kprintf "Cannot reboot - powering off instead, sorry.\n") k)

    unfoldable pub md_halt : Kernel P → Option (Ending P)
    unfolding cpu_halt
    md_halt k = some (halted (record k { sys = record (k.sys) { cpu = cpu_halt k.sys.cpu } }))

    -- The second `switch`.
    unfoldable pub stop : Request → Kernel P → Option (Ending P)
    unfolding md_poweroff md_reboot md_halt
    stop rb_halt k = md_halt (emit (kprintf "The system is halted.\n") k)
    stop rb_reboot k = md_reboot (emit (kprintf "Rebooting...\n") k)
    stop rb_poweroff k = md_poweroff (emit (kprintf "The system is halted.\n") k)

    -- The panic behind the `switch`.
    abbrev pub or_panic : Option (Ending P) → Outcome (Ending P)
    or_panic none = panic panicked
    or_panic (some e) = ok e

    unfoldable pub sys_reboot : ℤ → Kernel P → Outcome (Ending P)
    unfolding shutdown stop
    sys_reboot code k = elim (request code) [
      | none ↦ ok (returned einval k)
      | some r ↦ shutdown k >>= λ k1. or_panic (stop r k1)
    ]
