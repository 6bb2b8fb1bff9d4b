-- ===== src/Stoplight/Shape.antt =====
-- The order of the lock calls in the threads of Projects/OS161/kern/asst1/stoplight.c.
use windborne.Base.{
  ℕ, ◌==◌, ◌%◌, ◌≡◌, ◌≢◌, refl, ap, inl, inr, arith, Bool, true, false, List, [], ◌∷◌, Bool-cases,
  if◌then◌else◌,
}
use windborne.Stoplight.Vehicle.{
  Action, acquire, release, enter, leave, arrive, enter_first, left_branch, turnleft, right_branch,
  turnright, approachintersection, message_enter, message_leave,
}

-- The next call on lock `i` that a thread makes releases it.
abbrev pub holding : ℕ → List Action → Bool
holding i [] = false
holding i (acquire j ∷ r) = if j == i then false else holding i r
holding i (release j ∷ r) = if j == i then true else holding i r
holding i (_ ∷ r) = holding i r

-- The next message about intersection `i` says that the vehicle has left.
abbrev pub inside : ℕ → List Action → Bool
inside i [] = false
inside i (enter j m ∷ r) = if j == i then false else inside i r
inside i (leave j m ∷ r) = if j == i then true else inside i r
inside i (_ ∷ r) = inside i r

-- Once released, a lock is not released again before it is acquired.
abbrev pub Closes : Action → List Action → Type 0
Closes (release i) r = holding i r ≡ false
Closes _ r = Unit {0}

abbrev pub Covered : List Action → Type 0
Covered r = (i : ℕ) → inside i r ≡ true → holding i r ≡ true

-- At every point a vehicle holds the locks of the intersections that it is inside.
abbrev pub IsOrderly : List Action → Type 0
IsOrderly [] = Unit {0}
IsOrderly (a ∷ r) = Covered (a ∷ r) × Closes a r × IsOrderly r

enter_first-IsOrderly :
    (lane near n t : ℕ) (r : List Action)
    → ((i : ℕ) → near ≢ i → inside i r ≡ true → holding i r ≡ true)
    → holding near r ≡ true
    → IsOrderly r
    → IsOrderly (enter_first lane near n t r)
unfolding enter_first
enter_first-IsOrderly lane near n t r h o k =
    let entering : Covered (enter near (message_enter t n lane near) ∷ r) =
      λ i e. ground (arith, h i, ap (λ j. holding j r)) in
    let acquiring : Covered (acquire near ∷ enter near (message_enter t n lane near) ∷ r) =
      λ i e. ground (arith, h i) in
    (acquiring, tt, (entering, tt, (entering, tt, (entering, tt, (entering, tt, k)))))

pub IsOrderly-Covered : (r : List Action) → IsOrderly r → Covered r
IsOrderly-Covered [] k = λ i e. cc
IsOrderly-Covered (a ∷ r) k = k.0

arrive-IsOrderly : (lane t : ℕ) (r : List Action) → IsOrderly r → IsOrderly (arrive lane t r)
unfolding arrive
arrive-IsOrderly lane t r k =
    let h = IsOrderly-Covered r k in
    elim (Bool-cases (t == 0)) [
      | inl car ↦ rw car (h, tt, (h, tt, (h, tt, k)))
      | inr truck ↦ rw truck (h, tt, k)
    ]

-- What follows `enter_first` in the two kinds of branch.
abbrev left_rest : ℕ → ℕ → ℕ → ℕ → ℕ → List Action
left_rest lane near far n t =
    acquire far
    ∷ leave near (message_leave t n lane near)
    ∷ release near
    ∷ enter far (message_enter t n lane far)
    ∷ leave far (message_leave t n lane far)
    ∷ release far
    ∷ []

abbrev right_rest : ℕ → ℕ → ℕ → ℕ → List Action
right_rest lane near n t = leave near (message_leave t n lane near) ∷ release near ∷ []

left_rest-IsOrderly : (lane near far n t : ℕ) → near ≢ far → IsOrderly (left_rest lane near far n t)
left_rest-IsOrderly lane near far n t d = (
  λ i e. ground arith,
  tt,
  (
    λ i e. ground arith,
    tt,
    (
      λ i e. ground arith,
      ground arith,
      (λ i e. ground arith, tt, (λ i e. ground arith, tt, (λ i e. ground arith, refl, tt))),
    ),
  ),
)

right_rest-IsOrderly : (lane near n t : ℕ) → IsOrderly (right_rest lane near n t)
right_rest-IsOrderly lane near n t = (λ i e. ground arith, tt, (λ i e. ground arith, refl, tt))

left_branch-IsOrderly :
    (lane near far n t : ℕ) → near ≢ far → IsOrderly (left_branch lane near far n t)
unfolding left_branch
left_branch-IsOrderly lane near far n t d = arrive-IsOrderly lane t _ (
    enter_first-IsOrderly lane near n t (left_rest lane near far n t) (λ i c e. ground arith)
      (ground arith) (left_rest-IsOrderly lane near far n t d))

right_branch-IsOrderly : (lane near n t : ℕ) → IsOrderly (right_branch lane near n t)
unfolding right_branch
right_branch-IsOrderly lane near n t = arrive-IsOrderly lane t _ (
    enter_first-IsOrderly lane near n t (right_rest lane near n t) (λ i d e. ground arith)
      (ground arith) (right_rest-IsOrderly lane near n t))

pub if-IsOrderly :
    (r r' : List Action) (b : Bool) → IsOrderly r → IsOrderly r' → IsOrderly (if b then r else r')
if-IsOrderly r r' true h h' = h
if-IsOrderly r r' false h h' = h'

module _ (n t : ℕ) where
  turnleft-IsOrderly : (d : ℕ) → IsOrderly (turnleft d n t)
  unfolding turnleft
  turnleft-IsOrderly d = ground (
    arith,
    left_branch-IsOrderly 0 0 1 n t,
    left_branch-IsOrderly 1 1 2 n t,
    left_branch-IsOrderly 2 2 0 n t,
  )

  turnright-IsOrderly : (d : ℕ) → IsOrderly (turnright d n t)
  unfolding turnright
  turnright-IsOrderly d = ground (
    arith,
    right_branch-IsOrderly 0 0 n t,
    right_branch-IsOrderly 1 1 n t,
    right_branch-IsOrderly 2 2 n t,
  )

-- Whatever the random numbers are, at every point of the thread of a vehicle it holds the lock of
-- each intersection that it is inside, and once it has released a lock, it does not release it again before it acquires it.
pub approachintersection-IsOrderly : (r0 r1 r2 n : ℕ) → IsOrderly (approachintersection r0 r1 r2 n)
unfolding approachintersection
approachintersection-IsOrderly r0 r1 r2 n =
    let left = turnleft-IsOrderly n (r2 % 2) (r0 % 3) in
    let right = turnright-IsOrderly n (r2 % 2) (r0 % 3) in
    let turn = if-IsOrderly _ _ (r1 % 2 == 0) left (if-IsOrderly _ [] (r1 % 2 == 1) right tt) in
    (IsOrderly-Covered _ turn, tt, turn)

-- A thread acquires every lock before it releases it.
left_branch_idle :
    (lane near far n t i : ℕ) → near ≢ far → holding i (left_branch lane near far n t) ≡ false
unfolding left_branch arrive enter_first
left_branch_idle lane near far n t i d = ground arith

right_branch_idle : (lane near n t i : ℕ) → holding i (right_branch lane near n t) ≡ false
unfolding right_branch arrive enter_first
right_branch_idle lane near n t i = ground arith

module _ (n t i : ℕ) where
  turnleft_idle : (d : ℕ) → holding i (turnleft d n t) ≡ false
  unfolding turnleft
  turnleft_idle d = ground (
    arith,
    left_branch_idle 0 0 1 n t i,
    left_branch_idle 1 1 2 n t i,
    left_branch_idle 2 2 0 n t i,
  )

  turnright_idle : (d : ℕ) → holding i (turnright d n t) ≡ false
  unfolding turnright
  turnright_idle d =
      ground (
        arith,
        right_branch_idle 0 0 n t i,
        right_branch_idle 1 1 n t i,
        right_branch_idle 2 2 n t i,
      )

pub approachintersection_idle :
    (r0 r1 r2 n i : ℕ) → holding i (approachintersection r0 r1 r2 n) ≡ false
unfolding approachintersection
approachintersection_idle r0 r1 r2 n i =
    ground (arith, turnleft_idle n (r2 % 2) i (r0 % 3), turnright_idle n (r2 % 2) i (r0 % 3))
