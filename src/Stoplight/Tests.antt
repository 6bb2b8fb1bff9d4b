-- ===== src/Stoplight/Tests.antt =====
-- Runs of the vehicles of Projects/OS161/kern/asst1/stoplight.c, and the theorems at such runs.
use windborne.Base.{ℕ, ◌+◌, true, ◌≡◌, refl, arith, none, some, inl, if◌then◌else◌, ◌==◌}
use windborne.Base.Int.{negsuc}
use windborne.Platform.Bounded.{bounded, bounded-Laws}
use windborne.Synch.State.{Synch, outside}
use windborne.Thread.Example.{runner}
use windborne.Cats.Example.{allocate, allocate-IsFresh, roomy, roomy-Inv}
use windborne.Stoplight.Creating.{createvehicles}
use windborne.Stoplight.Vehicles.{Created, createvehicles_lem}
use windborne.Stoplight.World.{World, step, Reach, here, next, start}
use windborne.Stoplight.Exclusion.{one_vehicle}
use windborne.Stoplight.Jam.{jam_stays}
use windborne.Stoplight.Deadlock.{IsLeftTruck, Among, jam, jam_reached}

-- Every vehicle is a truck that turns left; vehicle `v` comes from route `v % 3`.
abbrev trucks : ℕ → ℕ → ℕ
trucks v k = if k == 0 then v else if k == 1 then 0 else 1

-- The world after a step of truck 1 that is possible.
moved : World → World
unfolding step
moved w = elim (step 1 w) [ some u ↦ u | none ↦ w ]

at_lock : World
unfolding moved start
at_lock = moved (moved (start trucks))

entered : World
unfolding at_lock
entered = moved (moved (moved (moved (moved at_lock))))

entered-Reach : Reach (start trucks) entered
unfolding entered step
entered-Reach =
    next 1 (next 1 (next 1 (next 1 (next 1 (next 1 (next 1 here refl) refl) refl) refl) refl) refl)
      refl

one_vehicle_example : ◌≡◌ {A = ℕ} 1 1
unfolding entered
one_vehicle_example = one_vehicle trucks entered entered-Reach 1 1 1 refl refl

truck0 : IsLeftTruck trucks 0 0
truck0 = (omega arith, refl, refl, refl)

truck1 : IsLeftTruck trucks 1 1
truck1 = (omega arith, refl, refl, refl)

truck2 : IsLeftTruck trucks 2 2
truck2 = (omega arith, refl, refl, refl)

abbrev jammed : World
jammed = (jam trucks 0 1 2 truck0 truck1 truck2).0

jam_stays_example : (jammed.rest 0 ≡ jammed.rest 0) × (step 0 jammed ≡ none)
jam_stays_example =
    jam_stays (Among 0 1 2) jammed jammed (jam trucks 0 1 2 truck0 truck1 truck2).2 here 0
      (inl refl)

jam_reached_example :
    (w : World) × Reach (start trucks) w
    × ((u : World) → Reach w u → (x : ℕ) → Among 0 1 2 x → step x u ≡ none)
jam_reached_example = jam_reached trucks 0 1 2 truck0 truck1 truck2

-- The line that the truck has printed, and its lane's counter, which it has taken below 0.
entered_test : (entered.lights 1 ≡ some 1) × (entered.cars 1 ≡ negsuc 0)
unfolding entered
entered_test = (refl, refl)

-- No lock exists, and nothing is in the other maps.
abbrev no_locks : Synch bounded
no_locks = record {
  sys = roomy;
  sems = λ p. none;
  locks = λ p. none;
  cvs = λ p. none;
  resting = λ p. outside;
}

createvehicles_lem_example :
    Created allocate 1
      (some 9)
      900
      no_locks
      (createvehicles bounded allocate (λ i. (some (4000 + i), true)) 900 no_locks)
createvehicles_lem_example =
    createvehicles_lem bounded-Laws allocate allocate-IsFresh 1 runner
      (λ i. (some (4000 + i), true)) 900 no_locks refl roomy-Inv
