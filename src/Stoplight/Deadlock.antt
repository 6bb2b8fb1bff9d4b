-- ===== src/Stoplight/Deadlock.antt =====
-- How trucks that turn left in Projects/OS161/kern/asst1/stoplight.c come to wait for each other.
use windborne.Base.{
  ℕ, ◌%◌, ◌<◌, ◌≡◌, ◌≢◌, refl, sym, ◌∙◌, ◌⊎◌, inl, inr, lt→ltb, ap, arith, List, [], ◌∷◌, Option,
  none, some, false,
}
use windborne.Base.Int.{ℤ, pos, negsuc, ltb_ℤ, int_dec}
use windborne.Spl.{is_zero}
use windborne.Synch.State.{put, put_here, put_other}
use windborne.Stoplight.Vehicle.{
  Message, Action, say, load, store_dec, lock_if_cars, unlock_if_none, acquire, release, enter,
  leave, left_branch, approachintersection, turnleft, message_leave, message_enter,
  message_approach,
}
use windborne.Stoplight.World.{World, perform, advance, step, Reach, here, next, start}
use windborne.Stoplight.Jam.{Jammed, jam_stays}

-- Vehicle `v` alone has moved from `t`, in a run from `s`, and `p` is what it has left to do.
record At (s t : World) (v : ℕ) (p : List Action) (g : ℤ) (lights : ℕ → Option ℕ) (cars : ℕ → ℤ)
    : Type 0 where
  world : World
  reached : Reach s world
  left : world.rest v ≡ p
  register : world.reg v ≡ g
  owners : world.lights ≡ lights
  counts : world.cars ≡ cars
  others : (q : ℕ) → v ≢ q → world.rest q ≡ t.rest q

module _ {s t : World} {v : ℕ} {r : List Action} {g : ℤ} {lights : ℕ → Option ℕ}
    {cars : ℕ → ℤ} where
  -- A step of `v` from such a point.
  act :
      {a : Action} {p : List Action} {h : ℤ} {owned : ℕ → Option ℕ} {counted : ℕ → ℤ}
      (at : At s t v (a ∷ r) g lights cars) (u : World)
      → perform v a r at.world ≡ some u
      → u.rest ≡ put at.world.rest v p
      → u.reg v ≡ h
      → u.lights ≡ owned
      → u.cars ≡ counted
      → At s t v p h owned counted
  unfolding step advance
  act {p = p} at u e moved c o n = record {
    world = u;
    reached = next v at.reached (rw at.left e);
    left = ap (λ f. f v) moved ∙ put_here at.world.rest v p;
    register = c;
    owners = o;
    counts = n;
    others = λ q d. ap (λ f. f q) moved ∙ put_other at.world.rest v q p d ∙ at.others q d;
  }

  at_say : {m : Message} → At s t v (say m ∷ r) g lights cars → At s t v r g lights cars
  unfolding perform
  at_say at = act at _ refl refl at.register at.owners at.counts

  at_enter :
      {i : ℕ} {m : Message} → At s t v (enter i m ∷ r) g lights cars → At s t v r g lights cars
  unfolding perform
  at_enter at = act at _ refl refl at.register at.owners at.counts

  at_load : {lane : ℕ} → At s t v (load lane ∷ r) g lights cars → At s t v r (cars lane) lights cars
  unfolding perform
  at_load {lane} at =
      act at _ refl refl (put_here at.world.reg v (at.world.cars lane) ∙ ap (λ f. f lane) at.counts)
        at.owners at.counts

  at_store_dec :
      {lane : ℕ}
      → At s t v (store_dec lane ∷ r) g lights cars
      → At s t v r g lights (put cars lane (int_dec g))
  unfolding perform
  at_store_dec {lane} at = act at _ refl refl at.register at.owners (
      ap (λ (c : ℤ). put at.world.cars lane (int_dec c)) at.register
      ∙ ap (λ f. put f lane (int_dec g)) at.counts)

  at_lock_if_cars :
      {lane : ℕ}
      → ltb_ℤ (pos 0) (cars lane) ≡ false
      → At s t v (lock_if_cars lane ∷ r) g lights cars
      → At s t v r g lights cars
  unfolding perform
  at_lock_if_cars {lane} none_counted at =
      act at _ refl (rw (ap (λ f. f lane) at.counts, none_counted) refl) at.register at.owners
        at.counts

  at_unlock_if_none :
      {lane : ℕ}
      → is_zero (cars lane) ≡ false
      → At s t v (unlock_if_none lane ∷ r) g lights cars
      → At s t v r g lights cars
  unfolding perform
  at_unlock_if_none {lane} counted at =
      act at _ refl (rw (ap (λ f. f lane) at.counts, counted) refl) at.register at.owners at.counts

  at_acquire :
      {i : ℕ}
      → lights i ≡ none
      → At s t v (acquire i ∷ r) g lights cars
      → At s t v r g (put lights i (some v)) cars
  unfolding perform
  at_acquire {i} free at =
      act at
        (record at.world { rest = put at.world.rest v r; lights = put at.world.lights i (some v) })
        (rw (ap (λ f. f i) at.owners, perform, free) refl) refl at.register
        (ap (λ f. put f i (some v)) at.owners) at.counts

-- What a truck that turns left has still to do behind the lock of its second intersection.
abbrev far_rest : ℕ → ℕ → ℕ → ℕ → List Action
far_rest v lane near far =
    leave near (message_leave 1 v lane near)
    ∷ release near
    ∷ enter far (message_enter 1 v lane far)
    ∷ leave far (message_leave 1 v lane far)
    ∷ release far
    ∷ []

uncounted :
    (cars : ℕ → ℤ) (lane : ℕ)
    → cars lane ≡ pos 0
    → (ltb_ℤ (pos 0) (cars lane) ≡ false)
      × (is_zero (put cars lane (int_dec (cars lane)) lane) ≡ false)
uncounted cars lane e =
    (rw e refl, ap is_zero (put_here cars lane (int_dec (cars lane)) ∙ ap (λ c. int_dec c) e))

-- A truck that is not counted goes up to its second intersection, and its counter goes below 0.
goes :
    {s t : World} {v : ℕ} {g : ℤ} {lights : ℕ → Option ℕ} {cars : ℕ → ℤ} {m : Message}
    (lane near far : ℕ)
    → cars lane ≡ pos 0
    → lights near ≡ none
    → At s t v (say m ∷ left_branch lane near far v 1) g lights cars
    → At s t v
        (acquire far ∷ far_rest v lane near far)
        (cars lane)
        (put lights near (some v))
        (put cars lane (int_dec (cars lane)))
unfolding left_branch
goes {cars = cars} lane near far e free at = at_enter (
    at_unlock_if_none (uncounted cars lane e).1 (
      at_store_dec
        (at_load (at_acquire free (at_lock_if_cars (uncounted cars lane e).0 (at_say at))))))

-- A truck on `lane` that will turn left.
abbrev pub IsLeftTruck : (ℕ → ℕ → ℕ) → ℕ → ℕ → Type 0
IsLeftTruck r lane v = (v < 20) × (r v 0 % 3 ≡ lane) × (r v 1 % 2 ≡ 0) × (r v 2 % 2 ≡ 1)

abbrev pub Among : ℕ → ℕ → ℕ → ℕ → Type 0
Among p q z v = (v ≡ p) ⊎ ((v ≡ q) ⊎ (v ≡ z))

truck_program :
    (r : ℕ → ℕ → ℕ) (lane near far v : ℕ)
    → IsLeftTruck r lane v
    → turnleft lane v 1 ≡ left_branch lane near far v 1
    → (start r).rest v ≡ say (message_approach 1 v lane lane) ∷ left_branch lane near far v 1
unfolding start approachintersection
truck_program r lane near far v k e =
    rw (k.1, k.2, k.3, lt→ltb v 20 k.0) (ap (λ l. say (message_approach 1 v lane lane) ∷ l) e)

begin :
    {s t : World} {lights : ℕ → Option ℕ} {cars : ℕ → ℤ} (v : ℕ) {p : List Action}
    → Reach s t
    → t.rest v ≡ p
    → t.lights ≡ lights
    → t.cars ≡ cars
    → At s t v p (t.reg v) lights cars
begin {t} v way e o c = record {
  world = t;
  reached = way;
  left = e;
  register = refl;
  owners = o;
  counts = c;
  others = λ q d. refl;
}

-- The world in which three trucks wait.
module _ (r : ℕ → ℕ → ℕ) (p q z : ℕ) (ka : IsLeftTruck r 0 p) (kb : IsLeftTruck r 1 q)
    (kc : IsLeftTruck r 2 z) where
  apart : (p ≢ q) × (q ≢ z) × (z ≢ p)
  apart = (
    λ e. ground (arith, ap (λ v. r v 0 % 3) e),
    λ e. ground (arith, ap (λ v. r v 0 % 3) e),
    λ e. ground (arith, ap (λ v. r v 0 % 3) e),
  )

  abbrev lights1 : ℕ → Option ℕ
  lights1 = put (λ i. none) 0 (some p)

  abbrev lights2 : ℕ → Option ℕ
  lights2 = put lights1 1 (some q)

  abbrev lights3 : ℕ → Option ℕ
  lights3 = put lights2 2 (some z)

  abbrev cars1 : ℕ → ℤ
  cars1 = put (λ l. pos 0) 0 (negsuc 0)

  abbrev cars2 : ℕ → ℤ
  cars2 = put cars1 1 (negsuc 0)

  abbrev cars3 : ℕ → ℤ
  cars3 = put cars2 2 (negsuc 0)

  first : At (start r) (start r) p (acquire 1 ∷ far_rest p 0 0 1) (pos 0) lights1 cars1
  unfolding start turnleft
  first = goes 0 0 1 refl refl (begin p here (truck_program r 0 0 1 p ka refl) refl refl)

  second : At (start r) first.world q (acquire 2 ∷ far_rest q 1 1 2) (pos 0) lights2 cars2
  unfolding turnleft
  second = goes 1 1 2 refl refl (
      begin q first.reached (first.others q apart.0 ∙ truck_program r 1 1 2 q kb refl) first.owners
        first.counts)

  third : At (start r) second.world z (acquire 0 ∷ far_rest z 2 2 0) (pos 0) lights3 cars3
  unfolding turnleft
  third = goes 2 2 0 refl refl (
      begin z second.reached
        (second.others z apart.1
          ∙ first.others z (λ e. apart.2 (sym e))
          ∙ truck_program r 2 2 0 z kc refl)
        second.owners second.counts)

  jam-Jammed : Jammed (Among p q z) third.world
  jam-Jammed x (inl e) = record {
    crossing = 1;
    after = far_rest p 0 0 1;
    blocker = q;
    waits =
        ap third.world.rest e
        ∙ third.others p apart.2
        ∙ second.others p (λ e. apart.0 (sym e))
        ∙ first.left;
    member = inr (inl refl);
    taken = ap (λ f. f 1) third.owners;
  }
  jam-Jammed x (inr (inl e)) = record {
    crossing = 2;
    after = far_rest q 1 1 2;
    blocker = z;
    waits = ap third.world.rest e ∙ third.others q (λ e. apart.1 (sym e)) ∙ second.left;
    member = inr (inr refl);
    taken = ap (λ f. f 2) third.owners;
  }
  jam-Jammed x (inr (inr e)) = record {
    crossing = 0;
    after = far_rest z 2 2 0;
    blocker = p;
    waits = ap third.world.rest e ∙ third.left;
    member = inl refl;
    taken = ap (λ f. f 0) third.owners;
  }

  pub jam : (w : World) × Reach (start r) w × Jammed (Among p q z) w
  jam = (third.world, third.reached, jam-Jammed)

  -- Where among the twenty vehicles a truck comes from each route and turns left, the vehicles can
  -- move to a world from which none of these three trucks ever moves again.
  pub jam_reached :
      (w : World) × Reach (start r) w
      × ((u : World) → Reach w u → (x : ℕ) → Among p q z x → step x u ≡ none)
  jam_reached = (jam.0, jam.1, λ u way x d. (jam_stays (Among p q z) jam.0 u jam.2 way x d).1)
