-- ===== src/Platform/Bounded.antt =====
-- A platform whose containers are lists with a limit on their growth: it meets the laws, and its
-- calls do fail.
use windborne.Base.{
  ℕ, zero, suc, ◌+◌, ◌≤◌, ◌<◌, ◌≡◌, ◌≢◌, refl, ltb, leb, if◌then◌else◌, Bool, true, false, List, [],
  ◌∷◌, ◌++◌, Option, none, some, length, get_elem?, get_or, take, remove_nth, arith,
}
use windborne.Platform.Interface.{Platform, Laws}

-- The elements, the space that is allocated, and how much the allocator grants.
pub record Store : Type 0 where
  pub held : List ℕ
  pub space : ℕ
  pub limit : ℕ

abbrev reserve : Store → ℕ → ℕ × Store
reserve a n =
    if leb n a.space then (0, a) else if leb n a.limit then (0, record a { space = n }) else (4, a)

abbrev append : Store → ℕ → ℕ × Store
append a x =
    if ltb (length a.held) a.space
    then (0, record a { held = a.held ++ x ∷ [] })
    else if ltb (length a.held) a.limit
    then (0, record a { held = a.held ++ x ∷ []; space = a.space + 1 })
    else (4, a)

abbrev resize : Store → ℕ → ℕ × Store
resize a n = (0, record a { held = take n a.held })

abbrev front : List ℕ → Store → Option (ℕ × Store)
front [] a = none
front (x ∷ xs) a = some (x, record a { held = xs })

abbrev is_nil : List ℕ → Bool
is_nil [] = true
is_nil (x ∷ xs) = false

abbrev pub bounded : Platform
bounded = record {
  spl_high = 15;
  stack_size = 4096;
  Array = Store;
  array_getnum = λ a. length a.held;
  array_getguy = λ a i. get_or a.held i 0;
  array_preallocate = reserve;
  array_setsize = resize;
  array_add = append;
  array_remove = λ a i. record a { held = remove_nth a.held i };
  Queue = Store;
  q_empty = λ q. is_nil q.held;
  q_preallocate = reserve;
  q_addtail = append;
  q_remhead = λ q. front q.held q;
  items = λ a. a.held;
  room = λ a. a.space;
  q_items = λ a. a.held;
  q_room = λ a. a.space;
}

get_elem?-get_or : (xs : List ℕ) (i : ℕ) → i < length xs → get_elem? xs i ≡ some (get_or xs i 0)
get_elem?-get_or [] i h = elim h [ ]
get_elem?-get_or (x ∷ xs) zero h = refl
get_elem?-get_or (x ∷ xs) (suc i) h = get_elem?-get_or xs i (omega arith)

nil_empty : (xs : List ℕ) → xs ≡ [] → is_nil xs ≡ true
nil_empty [] e = refl
nil_empty (x ∷ xs) e = cc

cons_not_empty : (ys : List ℕ) (x : ℕ) (xs : List ℕ) → ys ≡ x ∷ xs → is_nil ys ≢ true
cons_not_empty [] x xs e = cc
cons_not_empty (y ∷ ys) x xs e = λ h. cc

front_cons :
    (ys : List ℕ) (a : Store) (x : ℕ) (xs : List ℕ)
    → ys ≡ x ∷ xs
    → (r : Store) × (front ys a ≡ some (x, r)) × (r.held ≡ xs) × (a.space ≤ r.space)
front_cons [] a x xs e = cc
front_cons (y ∷ ys) a x xs e = (record a { held = ys }, ground arith, ground arith, ground arith)

pub bounded-Laws : Laws bounded
bounded-Laws = record {
  spl_high_pos = omega arith;
  getnum = λ a. refl;
  getguy = λ a i h. get_elem?-get_or a.held i h;
  preallocate-items = λ a n. ground arith;
  preallocate-room = λ a n. ground arith;
  setsize_zero = λ a. refl;
  setsize_zero-items = λ a. refl;
  setsize_zero-room = λ a. omega arith;
  add_code = λ a x h. ground arith;
  add-items = λ a x h. ground arith;
  add-room = λ a x. ground arith;
  remove-items = λ a i h. refl;
  remove-room = λ a i. omega arith;
  empty_nil = λ q h. nil_empty q.held h;
  empty_cons = λ q x xs h. cons_not_empty q.held x xs h;
  q_preallocate-items = λ a n. ground arith;
  q_preallocate-room = λ a n. ground arith;
  addtail_code = λ a x h. ground arith;
  addtail-items = λ a x h. ground arith;
  addtail-room = λ a x. ground arith;
  addtail_fails = λ a x h. ground arith;
  remhead_cons = λ q x xs h. front_cons q.held q x xs h;
}
