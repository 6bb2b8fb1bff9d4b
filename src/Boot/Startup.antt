-- ===== src/Boot/Startup.antt =====
-- `boot` of Projects/OS161/kern/main/main.c, `scheduler_bootstrap` of kern/thread/scheduler.c and
-- `machdep_dev_bootstrap` of kern/mips/lamebus_mips.c.
use windborne.Base.{ℕ, true, Option, none, some, Outcome, ok, panic, panicked, check, ◌>>=◌, ◌>>◌}
use windborne.Spl.{spl_raised, spl0}
use windborne.Platform.{Platform}
use windborne.Memory.Machine.{Machine}
use windborne.Memory.Ram.{ram_bootstrap}
use windborne.Thread.Fork.{Memory, thread_bootstrap}
use windborne.Boot.State.{
  Kernel, kprintf, vfs_setbootfs, vfs_bootstrap, dev_bootstrap, kprintf_bootstrap, lamebus_init,
  autoconf_lamebus, emit,
}

-- What the allocator, the bus and start.S give to the boot: the results of `q_create` and of the
-- two `array_create`, `none` where they fail, the size of the memory and its first free address.
pub record Given (P : Platform) : Type 0 where
  pub runqueue : Option P.Queue
  pub sleepers : Option P.Array
  pub zombies : Option P.Array
  pub memory : Memory
  pub ramsize : ℕ
  pub firstfree : ℕ

module _ (P : Platform) where
  unfoldable pub scheduler_bootstrap : Option P.Queue → Kernel P → Outcome (Kernel P)
  scheduler_bootstrap none k = panic panicked
  scheduler_bootstrap (some q) k =
      ok (record k { sys = record (k.sys) { runqueue = q }; has_runqueue = true })

  unfoldable pub machdep_dev_bootstrap : Kernel P → Outcome (Kernel P)
  unfolding spl0
  machdep_dev_bootstrap k = do
    check (spl_raised k.sys.cpu)
    let k1 = emit (kprintf "lamebus0 (system main bus)\n") (emit lamebus_init k)
    let k2 = record k1 { sys = record (k1.sys) { cpu = (spl0 k1.sys.cpu).1 } }
    ok (emit autoconf_lamebus k2)

  -- The lines up to the call of `ram_bootstrap`.
  abbrev pub greeting : Kernel P → Kernel P
  greeting k =
      let k1 = emit (kprintf "OS/161 base system version %s\n") (emit (kprintf "\n") k) in
      let k2 = emit (kprintf "\n") (emit (kprintf "%s") k1) in
      emit (kprintf "\n") (emit (kprintf "nwilfong's system version %s (%s #%d)\n") k2)

  -- `ram_bootstrap` with its two lines.
  abbrev pub find_ram : Machine → Given P → Kernel P → Kernel P
  find_ram M g k =
      let k1 = record k { ram = ram_bootstrap M g.ramsize g.firstfree } in
      emit (kprintf "%uk physical memory available\n")
        (emit (kprintf "Cpu is MIPS r2000/r3000\n") k1)

  -- `dev_bootstrap` calls the machine-dependent function. `vm_bootstrap` of dumbvm.c does nothing,
  -- and the result of `vfs_setbootfs` is ignored.
  unfoldable pub boot : Machine → Given P → Kernel P → Outcome (Kernel P)
  unfolding ram_bootstrap scheduler_bootstrap thread_bootstrap machdep_dev_bootstrap
  boot M g k = do
    let k1 = find_ram M g (greeting k)
    k2 ← scheduler_bootstrap g.runqueue k1
    (me, s) ← thread_bootstrap P g.sleepers g.zombies g.memory k2.sys
    let k3 = record k2 { sys = s; has_sleepers = true; has_zombies = true }
    k4 ← machdep_dev_bootstrap (emit dev_bootstrap (emit vfs_bootstrap k3))
    ok (emit (vfs_setbootfs "emu0") (emit kprintf_bootstrap k4))
