-- ===== src/Stoplight/World.antt =====
-- What the threads of Projects/OS161/kern/asst1/stoplight.c share, and their steps in any order.
-- Locks behave as Synch/Ownership and Synch/Releasing show of kern/thread/synch.c: a lock is free or
-- has an owner, an acquirer waits while there is an owner, and only the owner releases.
use windborne.Base.{ℕ, ltb, List, [], ◌∷◌, Option, none, some, if◌then◌else◌, ◌≡◌}
use windborne.Base.Int.{ℤ, pos, ltb_ℤ, int_inc, int_dec}
use windborne.Spl.{is_zero}
use windborne.Synch.State.{put}
use windborne.Synch.Mutex.{take_lock, drop_lock}
use windborne.Stoplight.Vehicle.{
  Message, Action, say, load, store_inc, store_dec, lock_if_cars, unlock_if_none, acquire_truck,
  release_truck, acquire, release, enter, leave, approachintersection,
}

-- `lights`: the owners of lockAB, lockBC, lockCA; `trucks`: those of tlA, tlB, tlC; `cars`: carsA,
-- carsB, carsC. Of a vehicle, `rest` is what it has still to do, and `reg` its register.
pub record World : Type 0 where
  pub lights : ℕ → Option ℕ
  pub trucks : ℕ → Option ℕ
  pub cars : ℕ → ℤ
  pub rest : ℕ → List Action
  pub reg : ℕ → ℤ
  pub printed : List Message

-- What the action of a vehicle does, with `r` left to do; `none` where it has to wait.
unfoldable pub perform : ℕ → Action → List Action → World → Option World
perform v (say m) r w = some (record w { rest = put w.rest v r; printed = m ∷ w.printed })
perform v (load lane) r w =
    some (record w { rest = put w.rest v r; reg = put w.reg v (w.cars lane) })
perform v (store_inc lane) r w =
    some (record w { rest = put w.rest v r; cars = put w.cars lane (int_inc (w.reg v)) })
perform v (store_dec lane) r w =
    some (record w { rest = put w.rest v r; cars = put w.cars lane (int_dec (w.reg v)) })
perform v (lock_if_cars lane) r w = some (record w {
  rest = put w.rest v (if ltb_ℤ (pos 0) (w.cars lane) then acquire_truck lane ∷ r else r);
})
perform v (unlock_if_none lane) r w =
    some (record w {
      rest = put w.rest v (if is_zero (w.cars lane) then release_truck lane ∷ r else r);
    })
perform v (acquire_truck lane) r w = elim (take_lock v (w.trucks lane)) [
  | none ↦ none
  | some o ↦ some (record w { rest = put w.rest v r; trucks = put w.trucks lane o })
]
perform v (release_truck lane) r w =
    some
      (record w { rest = put w.rest v r; trucks = put w.trucks lane (drop_lock v (w.trucks lane)) })
perform v (acquire i) r w = elim (take_lock v (w.lights i)) [
  | none ↦ none
  | some o ↦ some (record w { rest = put w.rest v r; lights = put w.lights i o })
]
perform v (release i) r w =
    some (record w { rest = put w.rest v r; lights = put w.lights i (drop_lock v (w.lights i)) })
perform v (enter i m) r w = some (record w { rest = put w.rest v r; printed = m ∷ w.printed })
perform v (leave i m) r w = some (record w { rest = put w.rest v r; printed = m ∷ w.printed })

unfoldable pub advance : ℕ → List Action → World → Option World
unfolding perform
advance v [] w = none
advance v (a ∷ r) w = perform v a r w

-- A step of vehicle `v`; `none` where it waits for a lock or has finished.
unfoldable pub step : ℕ → World → Option World
unfolding advance
step v w = advance v (w.rest v) w

-- Any vehicle may be next.
pub data Reach (s : World) : World → Type 0 where
  here : Reach s s
  next : {t u : World} (v : ℕ) → Reach s t → step v t ≡ some u → Reach s u

-- NVEHICLES
abbrev pub nvehicles : ℕ
nvehicles = 20

-- The world that `createvehicles` sets up: all locks are free, no car is counted, and thread `v` has
-- the random numbers `r v 0`, `r v 1`, `r v 2`.
unfoldable pub start : (ℕ → ℕ → ℕ) → World
unfolding approachintersection
start r = record {
  lights = λ i. none;
  trucks = λ lane. none;
  cars = λ lane. pos 0;
  rest = λ v. if ltb v nvehicles then approachintersection (r v 0) (r v 1) (r v 2) v else [];
  reg = λ v. pos 0;
  printed = [];
}
