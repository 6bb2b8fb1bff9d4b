-- ===== src/Boot/Ending.antt =====
-- How `sys_reboot` of Projects/OS161/kern/main/main.c ends.
use windborne.Base.{
  ℕ, ◌%◌, ◌≡◌, refl, ap, ◌∙◌, true, false, List, [], ◌∷◌, ◌++◌, map, ◌<◌, none, some, Outcome, ok,
  panic, panicked, arith, All-of, Bool, Option-cases, inl, inr, ◌⊎◌,
}
use windborne.Base.Int.{ℤ, pos}
use windborne.Spl.{Cpu, spl_raised, splhigh, splx, cpu_halt}
use windborne.Platform.{Platform, Laws}
use windborne.Memory.Fault.{einval}
use windborne.Thread.State.{Sys}
use windborne.Thread.Scheduler.{scheduler_killall}
use windborne.Thread.Wakeup.{IsLive}
use windborne.Thread.Invariant.{Inv}
use windborne.Thread.Operations.{at_high, high_raised}
use windborne.Boot.State.{Kernel, Event, kprintf, vfs_clearbootfs, vfs_clearcurdir, vfs_unmountall}
use windborne.Boot.Shutdown.{
  Request, rb_reboot, rb_halt, rb_poweroff, request, Ending, returned, halted, powered_off,
  scheduler_shutdown, thread_shutdown, shutdown, md_poweroff, md_reboot, md_halt, stop, or_panic,
  sys_reboot,
}
use windborne.Boot.Dropping.{dropped, scheduler_killall_lem}

-- Everything that boot allocates is there.
pub record IsUp {P : Platform} (k : Kernel P) : Type 0 where
  pub runqueue : k.has_runqueue ≡ true
  pub sleepers : k.has_sleepers ≡ true
  pub zombies : k.has_zombies ≡ true

-- Calls that are made at one interrupt level.
abbrev pub at_level : ℤ → List Event → List (ℤ × Event)
at_level level = map (λ e. (level, e))

-- What the file system is asked to do.
abbrev pub unmounts : List Event
unmounts = vfs_unmountall ∷ vfs_clearcurdir ∷ vfs_clearbootfs ∷ kprintf "Shutting down.\n" ∷ []

-- The kernel `k` is down: the file systems have been unmounted at the level of `k`, the threads that
-- were ready are dropped, and the structures are gone. `more` is what has been printed since, with
-- interrupts off.
pub record IsDown {P : Platform} (k : Kernel P) (more : List Event) (k1 : Kernel P) : Type 0 where
  pub runqueue : k1.has_runqueue ≡ false
  pub sleepers : k1.has_sleepers ≡ false
  pub zombies : k1.has_zombies ≡ false
  pub ready : P.q_items k1.sys.runqueue ≡ []
  pub calls : k1.sys.calls ≡ dropped k.sys.heap (P.q_items k.sys.runqueue) k.sys.calls
  pub events :
      k1.events ≡ at_level (pos P.spl_high) more ++ (at_level k.sys.cpu.curspl unmounts ++ k.events)
  pub level : k1.sys.cpu.curspl ≡ pos P.spl_high
  pub shut : k1.sys.cpu.status % 2 ≡ 0

module _ {P : Platform} (L : Laws P) (cur : ℕ) (k : Kernel P) (v : Inv P cur k.sys)
    (up : IsUp k) where
  -- The state at the call of `scheduler_shutdown`.
  abbrev unmounted : Kernel P
  unmounted = record k {
    sys = at_high L cur k.sys;
    events = at_level k.sys.cpu.curspl unmounts ++ k.events;
  }

  shutdown_steps :
      (s : Sys P)
      → scheduler_killall P (at_high L cur k.sys) ≡ ok s
      → spl_raised s.cpu ≡ true
      → P.q_empty s.runqueue ≡ true
      → shutdown P k
        ≡ ok (record unmounted {
          sys = s;
          has_runqueue = false;
          has_sleepers = false;
          has_zombies = false;
        })
  unfolding shutdown scheduler_shutdown thread_shutdown splhigh
  shutdown_steps s e r q = rw (up.runqueue, e, r, q, up.sleepers, up.zombies) refl

  high_shut : (n : ℕ) (c : Cpu) → 0 < n → (splhigh n c).1.status % 2 ≡ 0
  unfolding splhigh splx
  high_shut n c h = ground arith

  high_level : (n : ℕ) (c : Cpu) → (splhigh n c).1.curspl ≡ pos n
  unfolding splhigh splx
  high_level n c = refl

  shutdown-IsDown : (k1 : Kernel P) × (shutdown P k ≡ ok k1) × IsDown k [] k1
  shutdown-IsDown =
      let raised = (high_raised P.spl_high k.sys.cpu L.spl_high_pos).0 in
      let (q, result, nobody) = scheduler_killall_lem L (at_high L cur k.sys) raised (
        All-of (IsLive k.sys.heap) (P.q_items k.sys.runqueue)
          (λ p c. let (t, live, _, _) = v.parked p (omega (arith, c)) in (t, live))) in
      (
        _,
        shutdown_steps _ result raised (L.empty_nil q nobody),
        record {
          runqueue = refl;
          sleepers = refl;
          zombies = refl;
          ready = nobody;
          calls = refl;
          events = refl;
          level = high_level P.spl_high k.sys.cpu;
          shut = high_shut P.spl_high k.sys.cpu L.spl_high_pos;
        },
      )

  halt_shut : (c : Cpu) → (cpu_halt c).status % 2 ≡ 0
  unfolding cpu_halt
  halt_shut c = ground arith

  -- Lines that are printed when the kernel is down.
  later :
      (more : List Event) (k1 : Kernel P) (c : Cpu)
      → c.curspl ≡ k1.sys.cpu.curspl
      → c.status % 2 ≡ 0
      → IsDown k [] k1
      → IsDown k more (record k1 {
        events = at_level k1.sys.cpu.curspl more ++ k1.events;
        sys = record (k1.sys) { cpu = c };
      })
  later more k1 c same shut d = record {
    runqueue = d.runqueue;
    sleepers = d.sleepers;
    zombies = d.zombies;
    ready = d.ready;
    calls = d.calls;
    events =
        ap (λ l. at_level l more ++ k1.events) d.level
        ∙ ap (λ l. at_level (pos P.spl_high) more ++ l) d.events;
    level = same ∙ d.level;
    shut = shut;
  }

  -- The end of a call with a code that is known.
  abbrev pub Stops : Bool → Request → Outcome (Ending P) → Type 0
  Stops stays rb_halt o =
      (k1 : Kernel P) × (o ≡ ok (halted k1)) × IsDown k (kprintf "The system is halted.\n" ∷ []) k1
  Stops true r o = o ≡ panic panicked
  Stops false rb_reboot o =
      (k1 : Kernel P) × (o ≡ ok (powered_off k1))
      × IsDown k
          (kprintf "Cannot reboot - powering off instead, sorry.\n" ∷ kprintf "Rebooting...\n" ∷ [])
          k1
  Stops false rb_poweroff o =
      (k1 : Kernel P) × (o ≡ ok (powered_off k1))
      × IsDown k (kprintf "The system is halted.\n" ∷ []) k1

  stop_case :
      (stays : Bool) (r : Request) (k1 : Kernel P)
      → IsDown k [] k1
      → Stops stays r (or_panic P stays (stop P stays r k1))
  unfolding stop md_halt md_reboot md_poweroff cpu_halt
  stop_case stays rb_halt k1 d = (
    _,
    refl,
    later (kprintf "The system is halted.\n" ∷ []) k1 (cpu_halt k1.sys.cpu) refl
        (halt_shut k1.sys.cpu) d,
  )
  stop_case true rb_reboot k1 d = refl
  stop_case true rb_poweroff k1 d = refl
  stop_case false rb_reboot k1 d = (
    _,
    refl,
    later (kprintf "Cannot reboot - powering off instead, sorry.\n" ∷ kprintf "Rebooting...\n" ∷ [])
        k1 k1.sys.cpu refl d.shut d,
  )
  stop_case false rb_poweroff k1 d =
      (_, refl, later (kprintf "The system is halted.\n" ∷ []) k1 k1.sys.cpu refl d.shut d)

  -- `sys_reboot`, called from the invariant with the structures of the thread system allocated,
  -- with any code. With one that is none of RB_REBOOT, RB_HALT and RB_POWEROFF it returns EINVAL
  -- and changes nothing. With one of them it never returns: the file systems are unmounted at
  -- the interrupt level of the caller, then interrupts are off, every thread that was ready is dropped, in
  -- order, and the queue and the arrays are destroyed, with no assertion failing. For RB_HALT the
  -- processor is then halted, for the other two the power is off, or the kernel panics where the
  -- power stays on.
  pub sys_reboot_lem :
      (stays : Bool) (code : ℤ)
      → ((request code ≡ none) × (sys_reboot P stays code k ≡ ok (returned einval k)))
        ⊎ ((r : Request) × (request code ≡ some r) × Stops stays r (sys_reboot P stays code k))
  unfolding sys_reboot
  sys_reboot_lem stays code = elim (Option-cases (request code)) [
    | inl unknown ↦ inl (unknown, rw (sys_reboot, unknown) refl)
    | inr (r, known) ↦
        let (k1, result, d) = shutdown-IsDown in
        inr (r, known, rw (sys_reboot, known, result) (stop_case stays r k1 d))
  ]
