-- ===== src/Stoplight/Jam.antt =====
-- Vehicles of Projects/OS161/kern/asst1/stoplight.c that wait for each other.
use windborne.Base.{ℕ, ◌≡◌, ◌≢◌, refl, sym, subst, ◌∙◌, arith, List, [], ◌∷◌, none, some}
use windborne.Stoplight.Vehicle.{
  Action, say, load, store_inc, store_dec, lock_if_cars, unlock_if_none, acquire_truck,
  release_truck, acquire, release, enter, leave,
}
use windborne.Stoplight.World.{World, perform, advance, step, Reach, here, next}

-- Vehicle `p` is at a `lock_acquire` of an intersection that a vehicle of `D` owns.
pub record Blocked (D : ℕ → Type 0) (w : World) (p : ℕ) : Type 0 where
  pub crossing : ℕ
  pub after : List Action
  pub blocker : ℕ
  pub waits : w.rest p ≡ acquire crossing ∷ after
  pub member : D blocker
  pub taken : w.lights crossing ≡ some blocker

abbrev pub Jammed : (ℕ → Type 0) → World → Type 0
Jammed D w = (p : ℕ) → D p → Blocked D w p

-- What a step of `v` leaves alone.
abbrev Keeps : ℕ → World → World → Type 0
Keeps v w u =
    (p : ℕ) → v ≢ p → (u.rest p ≡ w.rest p) × ((i : ℕ) → w.lights i ≡ some p → u.lights i ≡ some p)

perform-Keeps :
    (v : ℕ) (a : Action) (r : List Action) (w u : World) → perform v a r w ≡ some u → Keeps v w u
unfolding perform
perform-Keeps v (say m) r w u e p d = ground arith
perform-Keeps v (load m) r w u e p d = ground arith
perform-Keeps v (store_inc m) r w u e p d = ground arith
perform-Keeps v (store_dec m) r w u e p d = ground arith
perform-Keeps v (lock_if_cars m) r w u e p d = ground arith
perform-Keeps v (unlock_if_none m) r w u e p d = ground arith
perform-Keeps v (acquire_truck m) r w u e p d = ground arith
perform-Keeps v (release_truck m) r w u e p d = ground arith
perform-Keeps v (acquire i) r w u e p d = ground arith
perform-Keeps v (release i) r w u e p d = ground arith
perform-Keeps v (enter i m) r w u e p d = ground arith
perform-Keeps v (leave i m) r w u e p d = ground arith

advance-Keeps : (v : ℕ) (l : List Action) (w u : World) → advance v l w ≡ some u → Keeps v w u
unfolding advance
advance-Keeps v [] w u e = cc
advance-Keeps v (a ∷ r) w u e = perform-Keeps v a r w u e

step-Keeps : (v : ℕ) (w u : World) → step v w ≡ some u → Keeps v w u
unfolding step
step-Keeps v w u e = advance-Keeps v (w.rest v) w u e

-- A vehicle at the lock of an intersection that is owned cannot move.
step_blocked :
    (w : World) (p i q : ℕ) (r : List Action)
    → w.rest p ≡ acquire i ∷ r
    → w.lights i ≡ some q
    → step p w ≡ none
unfolding step advance perform
step_blocked w p i q r e taken = rw (e, advance, perform, taken) refl

module _ (D : ℕ → Type 0) where
  stuck : {w : World} → Jammed D w → (p : ℕ) → D p → step p w ≡ none
  stuck {w} j p d = let b = j p d in step_blocked w p b.crossing b.blocker b.after b.waits b.taken

  mover : {w u : World} → Jammed D w → (v : ℕ) → step v w ≡ some u → (p : ℕ) → D p → v ≢ p
  mover {w} {u} j v e p d same =
      let never : none ≡ some u = sym (stuck j v (subst D (sym same) d)) ∙ e in cc

  step-Jammed : {w u : World} (v : ℕ) → step v w ≡ some u → Jammed D w → Jammed D u
  step-Jammed {w} {u} v e j p d =
      let keeps = step-Keeps v w u e in
      let other = mover j v e in
      let b = j p d in
      record {
        crossing = b.crossing;
        after = b.after;
        blocker = b.blocker;
        member = b.member;
        waits = (keeps p (other p d)).0 ∙ b.waits;
        taken = (keeps b.blocker (other b.blocker b.member)).1 b.crossing b.taken;
      }

  jam_kept :
      {w u : World} → Jammed D w → Reach w u → Jammed D u × ((p : ℕ) → D p → u.rest p ≡ w.rest p)
  jam_kept j here = (j, λ p d. refl)
  jam_kept j (next {t} {u} v way e) =
      let before = jam_kept j way in
      (
        step-Jammed v e before.0,
        λ p d. (step-Keeps v t u e p (mover before.0 v e p d)).0 ∙ before.1 p d,
      )

  -- Once every vehicle of a set waits for the lock of an intersection that a vehicle of the set
  -- owns, none of them has moved in any world reached from there, and none of them can.
  pub jam_stays :
      (w u : World)
      → Jammed D w
      → Reach w u
      → (p : ℕ) → D p
      → (u.rest p ≡ w.rest p) × (step p u ≡ none)
  jam_stays w u j way p d = let k = jam_kept j way in (k.1 p d, stuck k.0 p d)
