-- ===== src/Boot/Running.antt =====
-- What `boot` of Projects/OS161/kern/main/main.c sets up.
use windborne.Base.{
  ℕ, ◌%◌, ◌≤◌, ◌≡◌, refl, ap, ◌∙◌, ◌⊎◌, Bool, true, [], ◌∷◌, ◌++◌, none, some, ok, subst, sym,
  arith,
}
use windborne.Base.Int.{ℤ, pos}
use windborne.Spl.{Cpu, spl_raised, spl0, splx}
use windborne.Spl.Nesting.{IsConsistent, splx-IsConsistent}
use windborne.Platform.{Platform, Laws}
use windborne.Memory.Machine.{Machine}
use windborne.Memory.Ram.{ram_bootstrap}
use windborne.Thread.State.{Sys}
use windborne.Thread.Fork.{thread_bootstrap}
use windborne.Thread.Invariant.{Inv}
use windborne.Thread.Resuming.{recorded-Inv}
use windborne.Thread.Bootstrap.{booted, booted-Inv, bootstrap_steps}
use windborne.Boot.State.{
  Kernel, kprintf, vfs_setbootfs, kprintf_bootstrap, autoconf_lamebus, lamebus_init, dev_bootstrap,
  vfs_bootstrap,
}
use windborne.Boot.Startup.{
  Given, scheduler_bootstrap, machdep_dev_bootstrap, find_ram, greeting, boot,
}
use windborne.Memory.Fault.{einval}
use windborne.Boot.Ending.{IsUp, at_level, Stops, sys_reboot_lem}
use windborne.Boot.Shutdown.{Request, request, returned, sys_reboot}

-- There is memory for what boot allocates: the queue, the arrays and the first thread at `p`. New
-- containers are empty, and have space.
pub record IsEnough {P : Platform} (g : Given P) (p : ℕ) : Type 0 where
  pub queue : P.Queue
  pub sleepers : P.Array
  pub zombies : P.Array
  pub has_queue : g.runqueue ≡ some queue
  pub has_sleepers : g.sleepers ≡ some sleepers
  pub has_zombies : g.zombies ≡ some zombies
  pub thread : g.memory.thread_at ≡ some p
  pub name : g.memory.has_name ≡ true
  pub table : g.memory.has_table ≡ true
  pub no_ready : P.q_items queue ≡ []
  pub no_sleepers : P.items sleepers ≡ []
  pub no_zombies : P.items zombies ≡ []
  pub q_space : 1 ≤ P.q_room queue
  pub space : 1 ≤ P.room sleepers

-- The first thread runs with interrupts on, and everything is allocated.
pub record IsRunning {P : Platform} (M : Machine) (g : Given P) (p : ℕ) (k : Kernel P)
    : Type 0 where
  pub threads : Inv P p k.sys
  pub up : IsUp k
  pub level : k.sys.cpu.curspl ≡ pos 0
  pub open_to_interrupts : k.sys.cpu.status % 2 ≡ 1
  pub ram : k.ram ≡ ram_bootstrap M g.ramsize g.firstfree

module _ {P : Platform} (L : Laws P) (M : Machine) (g : Given P) (k : Kernel P) where
  -- The state at the call of `thread_bootstrap`.
  abbrev queued : P.Queue → Kernel P
  queued q =
      let k1 = find_ram P M g (greeting P k) in
      record k1 { sys = record (k1.sys) { runqueue = q }; has_runqueue = true }

  boot_steps :
      (p : ℕ) (q : P.Queue) (s : Sys P)
      → g.runqueue ≡ some q
      → thread_bootstrap P g.sleepers g.zombies g.memory (queued q).sys ≡ ok (p, s)
      → spl_raised s.cpu ≡ true
      → (k1 : Kernel P) × (boot P M g k ≡ ok k1)
        × (k1.sys ≡ record s { cpu = (spl0 s.cpu).1 })
        × (k1.ram ≡ ram_bootstrap M g.ramsize g.firstfree)
        × IsUp k1
  unfolding boot scheduler_bootstrap machdep_dev_bootstrap
  boot_steps p q s e t r = (
    record (queued q) {
      sys = record s { cpu = (spl0 s.cpu).1 };
      has_sleepers = true;
      has_zombies = true;
      events =
          at_level (pos 0) (vfs_setbootfs "emu0" ∷ kprintf_bootstrap ∷ autoconf_lamebus ∷ [])
          ++ (at_level s.cpu.curspl (
                kprintf "lamebus0 (system main bus)\n"
                ∷ lamebus_init
                ∷ dev_bootstrap
                ∷ vfs_bootstrap
                ∷ [])
              ++ (queued q).events);
    },
    rw (boot, e, t, r) refl,
    refl,
    refl,
    record { runqueue = refl; sleepers = refl; zombies = refl },
  )

  zero_level : (c : Cpu) → ((spl0 c).1.curspl ≡ pos 0) × ((spl0 c).1.status % 2 ≡ 1)
  unfolding spl0 splx
  zero_level c = (refl, ground arith)

  zero-IsConsistent : (c : Cpu) → IsConsistent (spl0 c).1
  unfolding spl0
  zero-IsConsistent c = (splx-IsConsistent (pos 0) c (omega arith)).2

  module _ (p : ℕ) (enough : IsEnough g p) (v : IsConsistent k.sys.cpu)
      (raised : spl_raised k.sys.cpu ≡ true) where
    -- `boot`, called with interrupts off and with memory for what it allocates, ends in a state in
    -- which the first thread runs with the invariant of the thread system, at level 0 with
    -- interrupts on, with all structures allocated and the memory found; no assertion on its way
    -- fails.
    pub boot_lem : (k1 : Kernel P) × (boot P M g k ≡ ok k1) × IsRunning M g p k1
    boot_lem =
        let s = (queued enough.queue).sys in
        let (table, result) =
          bootstrap_steps g.memory enough.sleepers enough.zombies s p enough.thread enough.name
            enough.table in
        let s1 = booted g.memory enough.sleepers enough.zombies s p table in
        let started : thread_bootstrap P g.sleepers g.zombies g.memory s ≡ ok (p, s1) =
          rw (enough.has_sleepers, enough.has_zombies) result in
        let (k1, ends, sys, ram, up) =
          boot_steps p enough.queue s1 enough.has_queue started raised in
        let threads = recorded-Inv L p s1 (spl0 s1.cpu).1 s1.calls (zero-IsConsistent s1.cpu) (
          booted-Inv g.memory enough.sleepers enough.zombies s p table enough.no_sleepers
            enough.no_zombies enough.no_ready enough.space enough.q_space v) in
        (
          k1,
          ends,
          record {
            threads = subst (Inv P p) (sym sys) threads;
            up = up;
            level = ap (λ (x : Sys P). x.cpu.curspl) sys ∙ (zero_level s1.cpu).0;
            open_to_interrupts = ap (λ (x : Sys P). x.cpu.status % 2) sys ∙ (zero_level s1.cpu).1;
            ram = ram;
          },
        )

    -- `boot`, called with interrupts off at a level that agrees with the enable bit, and with memory
    -- for the queue, the arrays and the first thread, the new containers being empty and with space
    -- for one thread, and then `sys_reboot` with any code, whether or not the power stays on when
    -- it is turned off. The first thread runs behind `boot`, with the invariant, at level 0 with
    -- interrupts on; and `sys_reboot` then returns EINVAL with nothing changed, for an unknown code,
    -- or it takes the kernel down from there and halts, turns the power off, or panics where the
    -- power stays on.
    pub boot-sys_reboot :
        (stays : Bool) (code : ℤ)
        → (k1 : Kernel P) × (running : IsRunning M g p k1) × (boot P M g k ≡ ok k1)
          × (((request code ≡ none) × (sys_reboot P stays code k1 ≡ ok (returned einval k1)))
              ⊎ ((r : Request) × (request code ≡ some r)
                  × Stops L p k1 running.threads running.up stays r (sys_reboot P stays code k1)))
    boot-sys_reboot stays code =
        let (k1, booted_up, running) = boot_lem in
        (k1, running, booted_up, sys_reboot_lem L p k1 running.threads running.up stays code)
