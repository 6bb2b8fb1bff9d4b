-- ===== src/Stoplight/Vehicle.antt =====
-- The threads of Projects/OS161/kern/asst1/stoplight.c as the list of what each has still to do.
-- Lanes A, B, C and intersections AB, BC, CA are numbered from 0, as in the code's arrays.
use windborne.Base.{ℕ, ◌%◌, ◌==◌, List, [], ◌∷◌, Option, String, get_elem?, if◌then◌else◌}

-- The arrays of message fragments; `get_elem?` has no element where the code reads out of bounds.
abbrev pub vehicles : List String
vehicles = "Car" ∷ "Truck" ∷ []

abbrev pub routes : List String
routes = "A" ∷ "B" ∷ "C" ∷ []

abbrev pub directions : List String
directions = "left" ∷ "right" ∷ []

abbrev pub intersection : List String
intersection = "AB" ∷ "BC" ∷ "CA" ∷ []

-- The lines that are printed, with the arguments of their `kprintf`.
pub data Message : Type 0 where
  approaching :
      (vtype : Option String) (vnumber : ℕ) (route turn_direction : Option String) → Message
  entering left : (vtype : Option String) (vnumber : ℕ) (route crossing : Option String) → Message

-- One access to the shared variables. `carsX++` and `carsX--` are a load into a register of the
-- thread and a store from it.
pub data Action : Type 0 where
  say : Message → Action
  load store_inc store_dec : (lane : ℕ) → Action
  lock_if_cars unlock_if_none : (lane : ℕ) → Action
  acquire_truck release_truck : (lane : ℕ) → Action
  acquire release : (crossing : ℕ) → Action
  enter leave : (crossing : ℕ) → Message → Action

unfoldable pub message_approach : ℕ → ℕ → ℕ → ℕ → Message
message_approach vtype vnumber route turn =
    approaching (get_elem? vehicles vtype) vnumber (get_elem? routes route)
      (get_elem? directions turn)

unfoldable pub message_enter : ℕ → ℕ → ℕ → ℕ → Message
message_enter vtype vnumber route crossing =
    entering (get_elem? vehicles vtype) vnumber (get_elem? routes route)
      (get_elem? intersection crossing)

unfoldable pub message_leave : ℕ → ℕ → ℕ → ℕ → Message
message_leave vtype vnumber route crossing =
    left (get_elem? vehicles vtype) vnumber (get_elem? routes route)
      (get_elem? intersection crossing)

-- The start of each branch of both turns: a car is counted, and the truck lock of the lane is taken
-- where cars are counted.
unfoldable pub arrive : ℕ → ℕ → List Action → List Action
arrive lane vtype rest =
    if vtype == 0
    then load lane ∷ store_inc lane ∷ lock_if_cars lane ∷ rest
    else lock_if_cars lane ∷ rest

-- The first intersection is entered, and the vehicle is no longer counted.
unfoldable pub enter_first : ℕ → ℕ → ℕ → ℕ → List Action → List Action
enter_first lane crossing vnumber vtype rest =
    acquire crossing
    ∷ load lane
    ∷ store_dec lane
    ∷ unlock_if_none lane
    ∷ enter crossing (message_enter vtype vnumber lane crossing)
    ∷ rest

-- A branch of `turnleft`, of a lane with its two intersections.
unfoldable pub left_branch : ℕ → ℕ → ℕ → ℕ → ℕ → List Action
unfolding arrive enter_first
left_branch lane near far vnumber vtype = arrive lane vtype (
    enter_first lane near vnumber vtype (
      acquire far
      ∷ leave near (message_leave vtype vnumber lane near)
      ∷ release near
      ∷ enter far (message_enter vtype vnumber lane far)
      ∷ leave far (message_leave vtype vnumber lane far)
      ∷ release far
      ∷ []))

unfoldable pub turnleft : ℕ → ℕ → ℕ → List Action
unfolding left_branch
turnleft vehicledirection vehiclenumber vehicletype =
    if vehicledirection == 0
    then left_branch 0 0 1 vehiclenumber vehicletype
    else if vehicledirection == 1
    then left_branch 1 1 2 vehiclenumber vehicletype
    else if vehicledirection == 2
    then left_branch 2 2 0 vehiclenumber vehicletype
    else []

-- A branch of `turnright`, of a lane with its intersection.
unfoldable pub right_branch : ℕ → ℕ → ℕ → ℕ → List Action
unfolding arrive enter_first
right_branch lane near vnumber vtype = arrive lane vtype (
    enter_first lane near vnumber vtype
      (leave near (message_leave vtype vnumber lane near) ∷ release near ∷ []))

unfoldable pub turnright : ℕ → ℕ → ℕ → List Action
unfolding right_branch
turnright vehicledirection vehiclenumber vehicletype =
    if vehicledirection == 0
    then right_branch 0 0 vehiclenumber vehicletype
    else if vehicledirection == 1
    then right_branch 1 1 vehiclenumber vehicletype
    else if vehicledirection == 2
    then right_branch 2 2 vehiclenumber vehicletype
    else []

-- `r0`, `r1`, `r2` are what the three calls of `random` return.
unfoldable pub approachintersection : ℕ → ℕ → ℕ → ℕ → List Action
unfolding turnleft turnright
approachintersection r0 r1 r2 vehiclenumber =
    let vehicledirection = r0 % 3 in
    let turndirection = r1 % 2 in
    let vehicletype = r2 % 2 in
    say (message_approach vehicletype vehiclenumber vehicledirection vehicledirection)
    ∷ (if turndirection == 0
        then turnleft vehicledirection vehiclenumber vehicletype
        else if turndirection == 1
        then turnright vehicledirection vehiclenumber vehicletype
        else [])
