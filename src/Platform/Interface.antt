-- ===== src/Platform/Interface.antt =====
-- What the kernel sources call and the repository does not hold: the resizable arrays and ring
-- queues of Projects/OS161/kern/include/array.h and queue.h, and constants of machine headers.
-- `Platform` is the interface that the models take as a parameter, `Laws` the behaviour that the
-- two headers document and that the thread system relies on.
use windborne.Base.{
  ℕ, ◌≤◌, ◌<◌, ◌≡◌, ◌≢◌, Bool, true, List, [], ◌∷◌, ◌++◌, Option, some, length, get_elem?,
  remove_nth,
}

-- An error code of `int` type is 0 for success.
pub record Platform : Type 1 where
  pub spl_high : ℕ  -- SPL_HIGH
  pub stack_size : ℕ  -- STACK_SIZE
  pub Array : Type 0
  pub array_getnum : Array → ℕ
  pub array_getguy : Array → ℕ → ℕ
  pub array_preallocate : Array → ℕ → ℕ × Array
  pub array_setsize : Array → ℕ → ℕ × Array
  pub array_add : Array → ℕ → ℕ × Array
  pub array_remove : Array → ℕ → Array
  pub Queue : Type 0
  pub q_empty : Queue → Bool
  pub q_preallocate : Queue → ℕ → ℕ × Queue
  pub q_addtail : Queue → ℕ → ℕ × Queue
  pub q_remhead : Queue → Option (ℕ × Queue)  -- `none` is its panic
  -- What the containers hold, and how many elements they have space for.
  pub items : Array → List ℕ
  pub room : Array → ℕ
  pub q_items : Queue → List ℕ
  pub q_room : Queue → ℕ

pub record Laws (P : Platform) : Type 0 where
  pub spl_high_pos : 0 < P.spl_high
  pub getnum : (a : P.Array) → P.array_getnum a ≡ length (P.items a)
  pub getguy :
      (a : P.Array) (i : ℕ)
      → i < length (P.items a)
      → get_elem? (P.items a) i ≡ some (P.array_getguy a i)
  pub preallocate-items : (a : P.Array) (n : ℕ) → P.items (P.array_preallocate a n).1 ≡ P.items a
  pub preallocate-room :
      (a : P.Array) (n : ℕ)
      → (P.room a ≤ P.room (P.array_preallocate a n).1)
        × ((P.array_preallocate a n).0 ≡ 0 → n ≤ P.room (P.array_preallocate a n).1)
  -- "Shrinking the array; not supposed to be able to fail"
  pub setsize_zero : (a : P.Array) → (P.array_setsize a 0).0 ≡ 0
  pub setsize_zero-items : (a : P.Array) → P.items (P.array_setsize a 0).1 ≡ []
  pub setsize_zero-room : (a : P.Array) → P.room a ≤ P.room (P.array_setsize a 0).1
  -- An addition succeeds where there is space, and then puts the element last.
  pub add_code : (a : P.Array) (x : ℕ) → length (P.items a) < P.room a → (P.array_add a x).0 ≡ 0
  pub add-items :
      (a : P.Array) (x : ℕ)
      → (P.array_add a x).0 ≡ 0
      → P.items (P.array_add a x).1 ≡ P.items a ++ x ∷ []
  pub add-room : (a : P.Array) (x : ℕ) → P.room a ≤ P.room (P.array_add a x).1
  pub remove-items :
      (a : P.Array) (i : ℕ)
      → i < length (P.items a)
      → P.items (P.array_remove a i) ≡ remove_nth (P.items a) i
  pub remove-room : (a : P.Array) (i : ℕ) → P.room a ≤ P.room (P.array_remove a i)
  pub empty_nil : (q : P.Queue) → P.q_items q ≡ [] → P.q_empty q ≡ true
  pub empty_cons : (q : P.Queue) (x : ℕ) (xs : List ℕ) → P.q_items q ≡ x ∷ xs → P.q_empty q ≢ true
  pub q_preallocate-items : (q : P.Queue) (n : ℕ) → P.q_items (P.q_preallocate q n).1 ≡ P.q_items q
  pub q_preallocate-room :
      (q : P.Queue) (n : ℕ)
      → (P.q_room q ≤ P.q_room (P.q_preallocate q n).1)
        × ((P.q_preallocate q n).0 ≡ 0 → n ≤ P.q_room (P.q_preallocate q n).1)
  -- "Does not fail if no extension is required"
  pub addtail_code :
      (q : P.Queue) (x : ℕ) → length (P.q_items q) < P.q_room q → (P.q_addtail q x).0 ≡ 0
  pub addtail-items :
      (q : P.Queue) (x : ℕ)
      → (P.q_addtail q x).0 ≡ 0
      → P.q_items (P.q_addtail q x).1 ≡ P.q_items q ++ x ∷ []
  pub addtail-room : (q : P.Queue) (x : ℕ) → P.q_room q ≤ P.q_room (P.q_addtail q x).1
  pub addtail_fails :
      (q : P.Queue) (x : ℕ) → (P.q_addtail q x).0 ≢ 0 → P.q_items (P.q_addtail q x).1 ≡ P.q_items q
  -- The oldest element comes out.
  pub remhead_cons :
      (q : P.Queue) (x : ℕ) (xs : List ℕ)
      → P.q_items q ≡ x ∷ xs
      → (r : P.Queue) × (P.q_remhead q ≡ some (x, r))
        × (P.q_items r ≡ xs)
        × (P.q_room q ≤ P.q_room r)
