-- ===== src/Boot/Tests.antt =====
-- What the theorems about boot, shutdown and the bus say of the system of Thread/Example and of a
-- machine that boots.
use windborne.Base.{ℕ, ◌<◌, ◌≡◌, ◌≢◌, refl, ◌⊎◌, true, false, [], none, some, ok, arith}
use windborne.Base.Int.{pos}
use windborne.Platform.Bounded.{bounded, bounded-Laws}
use windborne.Memory.Fault.{einval}
use windborne.Memory.Example.{machine}
use windborne.Thread.State.{Sys}
use windborne.Thread.Example.{
  store, three, three-Inv, open_cpu, closed_cpu, open-IsConsistent, closed-IsConsistent,
}
use windborne.Boot.State.{Kernel}
use windborne.Boot.Startup.{Given, boot}
use windborne.Boot.Shutdown.{Request, request, returned, sys_reboot}
use windborne.Boot.Ending.{IsUp, Stops, sys_reboot_lem}
use windborne.Boot.Running.{IsEnough, IsRunning, boot-sys_reboot}
use windborne.Boot.Bus.{
  Lamebus, Laws, lamebus_read_register, lamebus_write_register, lamebus_write_register_lem,
}

abbrev kernel : Sys bounded → Kernel bounded
kernel s = record {
  sys = s;
  ram = record { firstpaddr = 0; lastpaddr = 0 };
  has_runqueue = true;
  has_sleepers = true;
  has_zombies = true;
  events = [];
}

up : IsUp (kernel (three open_cpu))
up = record { runqueue = refl; sleepers = refl; zombies = refl }

sys_reboot_lem_example :
    ((request (pos 1) ≡ none)
      × (sys_reboot bounded true (pos 1) (kernel (three open_cpu))
          ≡ ok (returned einval (kernel (three open_cpu)))))
    ⊎ ((r : Request) × (request (pos 1) ≡ some r)
        × Stops bounded-Laws 1
            (kernel (three open_cpu))
            (three-Inv open_cpu open-IsConsistent)
            up
            true
            r
            (sys_reboot bounded true (pos 1) (kernel (three open_cpu))))
sys_reboot_lem_example =
    sys_reboot_lem bounded-Laws 1 (kernel (three open_cpu)) (three-Inv open_cpu open-IsConsistent)
      up true (pos 1)

-- The state that start.S leaves: nothing is there yet, and interrupts are off.
abbrev fresh : Kernel bounded
fresh = kernel (record (three closed_cpu) {
  heap = λ p. none;
  curthread = none;
  sleepers = store [];
  runqueue = store [];
  numthreads = 0;
})

abbrev given : Given bounded
given = record {
  runqueue = some (store []);
  sleepers = some (store []);
  zombies = some (store []);
  memory = record { thread_at = some 1; has_name = true; has_table = true; stack_at = none };
  ramsize = 4194304;
  firstfree = 2147549184;
}

given-IsEnough : IsEnough given 1
given-IsEnough = record {
  queue = store [];
  sleepers = store [];
  zombies = store [];
  has_queue = refl;
  has_sleepers = refl;
  has_zombies = refl;
  thread = refl;
  name = refl;
  table = refl;
  no_ready = refl;
  no_sleepers = refl;
  no_zombies = refl;
  q_space = omega arith;
  space = omega arith;
}

-- The power goes off.
boot-sys_reboot_example :
    (k1 : Kernel bounded) × (running : IsRunning machine given 1 k1) × (boot bounded machine given
        fresh
      ≡ ok k1)
    × (((request (pos 2) ≡ none) × (sys_reboot bounded false (pos 2) k1 ≡ ok (returned einval k1)))
        ⊎ ((r : Request) × (request (pos 2) ≡ some r)
            × Stops bounded-Laws 1 k1 running.threads running.up false r
                (sys_reboot bounded false (pos 2) k1)))
boot-sys_reboot_example =
    boot-sys_reboot bounded-Laws machine given fresh 1 given-IsEnough closed-IsConsistent refl false
      (pos 2)

abbrev bus : Lamebus
bus = record { lb_nslots = 32; lb_baseaddr = 0xbfe00000; lb_slot_size = 65536 }

bus-Laws : Laws bus
bus-Laws = record { fits = omega arith }

lamebus_write_register_lem_example :
    (written : ℕ → ℕ) × (lamebus_write_register bus (pos 2) 8 77 (λ a. 0) ≡ ok written)
    × (lamebus_read_register bus (pos 2) 8 written ≡ ok 77)
    × ((m j : ℕ)
        → m < 32
        → j < 65536
        → (2 ≢ m) ⊎ (8 ≢ j)
        → lamebus_read_register bus (pos m) j written
          ≡ lamebus_read_register bus (pos m) j (λ a. 0))
lamebus_write_register_lem_example =
    lamebus_write_register_lem bus-Laws 2 8 77 (λ a. 0) (omega arith) (omega arith)
