-- ===== src/Stoplight/Exclusion.antt =====
-- Who is inside the intersections of Projects/OS161/kern/asst1/stoplight.c, in any order of steps.
use windborne.Base.{
  ℕ, ltb, ◌≡◌, ◌≢◌, refl, sym, ◌∙◌, inl, inr, arith, Bool, true, false, List, [], ◌∷◌, none, some,
  ap, ℕ_discrete, subst, if◌then◌else◌, Option-cases, ◌==◌,
}
use mathlib.Core.Option.{some-injective}
use windborne.Base.Int.{pos, ltb_ℤ}
use windborne.Spl.{is_zero}
use windborne.Synch.State.{put}
use windborne.Stoplight.Vehicle.{
  Action, say, load, store_inc, store_dec, lock_if_cars, unlock_if_none, acquire_truck,
  release_truck, acquire, release, enter, leave, approachintersection,
}
use windborne.Stoplight.World.{World, perform, advance, step, Reach, here, next, start, nvehicles}
use windborne.Stoplight.Shape.{
  holding, inside, IsOrderly, IsOrderly-Covered, approachintersection-IsOrderly,
  approachintersection_idle, if-IsOrderly,
}

-- Every vehicle has an orderly program before it, and the locks that it is still to release.
pub record Owned (w : World) : Type 0 where
  pub orderly : (v : ℕ) → IsOrderly (w.rest v)
  pub owner : (v i : ℕ) → holding i (w.rest v) ≡ true → w.lights i ≡ some v

-- A vehicle inside an intersection owns its lock.
pub owner_inside :
    {w : World} → Owned w → (v i : ℕ) → inside i (w.rest v) ≡ true → w.lights i ≡ some v
owner_inside {w} o v i h = o.owner v i (IsOrderly-Covered (w.rest v) (o.orderly v) i h)

module _ (v : ℕ) (r : List Action) (w u : World) (o : Owned w) (moved : u.rest ≡ put w.rest v r)
    (orderly : IsOrderly r) where
  -- A step of `v` that leaves it `r` to do.
  move-Owned :
      ((i : ℕ) → holding i r ≡ true → u.lights i ≡ some v)
      → ((q i : ℕ) → v ≢ q → w.lights i ≡ some q → u.lights i ≡ some q)
      → Owned u
  move-Owned mine others = record {
    orderly = λ q. rw moved (ground (arith, o.orderly q));
    owner = λ q i m. elim (ℕ_discrete v q) [
      | yes same ↦ ground (arith, ap (λ f. f q) moved, mine i)
      | no differ ↦ ground (arith, ap (λ f. f q) moved, o.owner q i, others q i)
    ];
  }

  -- A step that leaves the locks of the intersections alone.
  pass-Owned :
      u.lights ≡ w.lights → ((i : ℕ) → holding i r ≡ true → holding i (w.rest v) ≡ true) → Owned u
  pass-Owned same h =
      move-Owned (λ i e. ap (λ f. f i) same ∙ o.owner v i (h i e))
        (λ q i d e. ap (λ f. f i) same ∙ e)

  acquire-Owned :
      (i : ℕ)
      → u.lights ≡ put w.lights i (some v)
      → w.lights i ≡ none
      → ((j : ℕ) → i ≢ j → holding j r ≡ true → holding j (w.rest v) ≡ true)
      → Owned u
  acquire-Owned i e free h =
      move-Owned (λ j m. ground (arith, ap (λ f. f j) e, h j, o.owner v j))
        (λ q j d m. ground (arith, ap (λ f. f j) e))

  release-Owned :
      (i : ℕ)
      → u.lights ≡ put w.lights i none
      → w.lights i ≡ some v
      → holding i r ≡ false
      → ((j : ℕ) → i ≢ j → holding j r ≡ true → holding j (w.rest v) ≡ true)
      → Owned u
  release-Owned i e held closed h =
      move-Owned (λ j m. ground (arith, ap (λ f. f j) e, h j, o.owner v j, ap (λ k. holding k r)))
        (λ q j d m. ground (arith, ap (λ f. f j) e))

done-Owned : {w u : World} → some w ≡ some u → Owned w → Owned u
done-Owned e o = subst Owned (some-injective _ _ e) o

-- An action that is no call on an intersection's lock, with `r'` left to do.
plain-Owned :
    (v : ℕ) (r r' : List Action) (w t u : World)
    → some t ≡ some u
    → Owned w
    → (w.rest v ≡ r)
    → t.rest ≡ put w.rest v r'
    → t.lights ≡ w.lights
    → (IsOrderly r → IsOrderly r')
    → ((i : ℕ) → holding i r' ≡ true → holding i r ≡ true)
    → Owned u
plain-Owned v r r' w t u e o p moved same k h =
    done-Owned e
      (pass-Owned v r' w t o moved (k (subst IsOrderly p (o.orderly v))) same (λ i m. rw p (h i m)))

-- A call on a lane's lock that `perform` puts before the rest.
inserted-IsOrderly :
    (b : Bool) (a : Action) (r : List Action)
    → IsOrderly (a ∷ r)
    → IsOrderly r
    → IsOrderly (if b then a ∷ r else r)
inserted-IsOrderly true a r h k = h
inserted-IsOrderly false a r h k = k

inserted-holding :
    (b : Bool) (a : Action) (r : List Action) (i : ℕ)
    → (holding i (a ∷ r) ≡ true → holding i r ≡ true)
    → holding i (if b then a ∷ r else r) ≡ true
    → holding i r ≡ true
inserted-holding true a r i h m = h m
inserted-holding false a r i h m = m

same_lem : (v : ℕ) → (v == v) ≡ true
same_lem v = ground arith

perform-Owned :
    (v : ℕ) (a : Action) (r : List Action) (w u : World)
    → w.rest v ≡ a ∷ r
    → perform v a r w ≡ some u
    → Owned w
    → Owned u
unfolding perform
perform-Owned v (say m) r w u p e o = plain-Owned v _ r w _ u e o p refl refl (λ k. k.2) (λ i h. h)
perform-Owned v (load m) r w u p e o = plain-Owned v _ r w _ u e o p refl refl (λ k. k.2) (λ i h. h)
perform-Owned v (store_inc m) r w u p e o =
    plain-Owned v _ r w _ u e o p refl refl (λ k. k.2) (λ i h. h)
perform-Owned v (store_dec m) r w u p e o =
    plain-Owned v _ r w _ u e o p refl refl (λ k. k.2) (λ i h. h)
perform-Owned v (lock_if_cars m) r w u p e o =
    let b = ltb_ℤ (pos 0) (w.cars m) in
    plain-Owned v _ (if b then acquire_truck m ∷ r else r) w _ u e o p refl refl
      (λ k. inserted-IsOrderly b (acquire_truck m) r (IsOrderly-Covered r k.2, tt, k.2) k.2)
      (λ i. inserted-holding b (acquire_truck m) r i (λ h. h))
perform-Owned v (unlock_if_none m) r w u p e o =
    let b = is_zero (w.cars m) in
    plain-Owned v _ (if b then release_truck m ∷ r else r) w _ u e o p refl refl
      (λ k. inserted-IsOrderly b (release_truck m) r (IsOrderly-Covered r k.2, tt, k.2) k.2)
      (λ i. inserted-holding b (release_truck m) r i (λ h. h))
perform-Owned v (acquire_truck m) r w u p e o = elim (Option-cases (w.trucks m)) [
  | inl free ↦ plain-Owned v _ r w _ u (rw (free, perform) at e) o p refl refl (λ k. k.2) (λ i h. h)
  | inr (x, taken) ↦ let never : none ≡ some u = rw (taken, perform) at e in cc
]
perform-Owned v (release_truck m) r w u p e o =
    plain-Owned v _ r w _ u e o p refl refl (λ k. k.2) (λ i h. h)
perform-Owned v (acquire i) r w u p e o = elim (Option-cases (w.lights i)) [
  | inl free ↦
      let k = subst IsOrderly p (o.orderly v) in
      done-Owned (rw (free, perform) at e)
        (acquire-Owned v r w _ o refl k.2 i refl free (λ j d h. rw p (ground arith)))
  | inr (x, taken) ↦ let never : none ≡ some u = rw (taken, perform) at e in cc
]
perform-Owned v (release i) r w u p e o =
    let k = subst IsOrderly p (o.orderly v) in
    let held = o.owner v i (rw p (ground arith)) in
    done-Owned e (
      release-Owned v r w _ o refl k.2 i (rw (held, same_lem v) refl) held k.1
        (λ j d h. rw p (ground arith)))
perform-Owned v (enter i m) r w u p e o =
    plain-Owned v _ r w _ u e o p refl refl (λ k. k.2) (λ i h. h)
perform-Owned v (leave i m) r w u p e o =
    plain-Owned v _ r w _ u e o p refl refl (λ k. k.2) (λ i h. h)

advance-Owned :
    (v : ℕ) (p : List Action) (w u : World)
    → w.rest v ≡ p
    → advance v p w ≡ some u
    → Owned w
    → Owned u
unfolding advance
advance-Owned v [] w u p e o = cc
advance-Owned v (a ∷ r) w u p e o = perform-Owned v a r w u p e o

-- A step of any vehicle keeps the invariant.
pub step-Owned : (v : ℕ) (w u : World) → step v w ≡ some u → Owned w → Owned u
unfolding step
step-Owned v w u e o = advance-Owned v (w.rest v) w u refl e o

pub start-Owned : (r : ℕ → ℕ → ℕ) → Owned (start r)
unfolding start
start-Owned r = record {
  orderly = λ v.
      if-IsOrderly _ [] (ltb v nvehicles) (approachintersection-IsOrderly (r v 0) (r v 1) (r v 2) v)
        tt;
  owner = λ v i h. absurd (started v i h);
}
  where
    started :
        (v i : ℕ)
        → holding i (if ltb v nvehicles then approachintersection (r v 0) (r v 1) (r v 2) v else [])
          ≡ true
        → ⊥
    started v i h = ground (arith, approachintersection_idle (r v 0) (r v 1) (r v 2) v i)

pub Reach-Owned : {w u : World} → Owned w → Reach w u → Owned u
Reach-Owned o here = o
Reach-Owned o (next {t} {u} v way e) = step-Owned v t u e (Reach-Owned o way)

-- In every world that the vehicles of `createvehicles` reach, whatever the random numbers and the order of
-- their steps, two vehicles inside the same intersection are the same vehicle.
pub one_vehicle :
    (r : ℕ → ℕ → ℕ) (w : World)
    → Reach (start r) w
    → (i p q : ℕ) → inside i (w.rest p) ≡ true
    → inside i (w.rest q) ≡ true
    → p ≡ q
one_vehicle r w way i p q h k =
    let o = Reach-Owned (start-Owned r) way in
    some-injective _ _ (sym (owner_inside o p i h) ∙ owner_inside o q i k)
