-- ===== src/Boot/Bus.antt =====
-- The device registers of Projects/OS161/kern/mips/lamebus_mips.c. The constants of machine headers
-- that the repository does not hold are parameters; registers are what the memory holds.
use windborne.Base.{
  ℕ, suc, ◌+◌, ◌-◌, ◌*◌, ◌%◌, ◌^◌, ◌≤◌, ◌<◌, ◌≡◌, ◌≢◌, refl, ap, ltb, Bool, false, ◌⊎◌, inl, inr,
  Outcome, ok, check, ◌>>=◌, ◌>>◌, arith,
}
use native.Mathlib.Nat.{mul-le-mul_left, mod-eq_of_lt}
use windborne.Base.Int.{ℤ, pos, negsuc}
use windborne.Synch.State.{put, put_here, put_other}

pub record Lamebus : Type 0 where
  pub lb_nslots : ℕ  -- LB_NSLOTS
  pub lb_baseaddr : ℕ  -- LB_BASEADDR
  pub lb_slot_size : ℕ  -- LB_SLOT_SIZE

-- The slots lie below the end of the 32-bit address space.
pub record Laws (B : Lamebus) : Type 0 where
  pub fits : B.lb_baseaddr + B.lb_nslots * B.lb_slot_size ≤ 2 ^ 32

module _ (B : Lamebus) where
  -- `slot>=0 && slot<LB_NSLOTS`
  abbrev pub is_slot : ℤ → Bool
  is_slot (pos n) = ltb n B.lb_nslots
  is_slot (negsuc n) = false

  abbrev slot_base : ℤ → ℕ
  slot_base (pos n) = n * B.lb_slot_size
  slot_base (negsuc n) = 2 ^ 32 - suc n * B.lb_slot_size % 2 ^ 32

  unfoldable pub lamebus_map_area : ℤ → ℕ → Outcome ℕ
  lamebus_map_area slot offset = do
    check (is_slot slot)
    ok ((B.lb_baseaddr + slot_base slot + offset) % 2 ^ 32)

  unfoldable pub lamebus_read_register : ℤ → ℕ → (ℕ → ℕ) → Outcome ℕ
  unfolding lamebus_map_area
  lamebus_read_register slot offset memory = do ptr ← lamebus_map_area slot offset; ok (memory ptr)

  unfoldable pub lamebus_write_register : ℤ → ℕ → ℕ → (ℕ → ℕ) → Outcome (ℕ → ℕ)
  unfolding lamebus_map_area
  lamebus_write_register slot offset val memory = do
    ptr ← lamebus_map_area slot offset
    ok (put memory ptr val)

module _ {B : Lamebus} (L : Laws B) where
  -- The address without its wrap-around.
  abbrev address : ℕ → ℕ → ℕ
  address n offset = B.lb_baseaddr + n * B.lb_slot_size + offset

  map_area_lem :
      (n offset : ℕ)
      → n < B.lb_nslots
      → offset < B.lb_slot_size
      → lamebus_map_area B (pos n) offset ≡ ok (address n offset)
  unfolding lamebus_map_area
  map_area_lem n offset h k =
      let room : B.lb_slot_size * (n + 1) ≤ B.lb_slot_size * B.lb_nslots =
        mul-le-mul_left B.lb_slot_size (omega arith) in
      let small : address n offset < 2 ^ 32 = omega (arith, room, L.fits) in
      rw (lamebus_map_area, mod-eq_of_lt small) (ground arith)

  -- The registers of a slot are below those of the next.
  address_lt : (n m i j : ℕ) → n < m → i < B.lb_slot_size → address n i < address m j
  address_lt n m i j l h =
      let room : B.lb_slot_size * (n + 1) ≤ B.lb_slot_size * m =
        mul-le-mul_left B.lb_slot_size (omega arith) in
      omega (arith, room)

  -- Different registers have different addresses.
  address_differ :
      (n m i j : ℕ)
      → i < B.lb_slot_size
      → j < B.lb_slot_size
      → (n ≢ m) ⊎ (i ≢ j)
      → address n i ≢ address m j
  address_differ n m i j h k d e = elim (order n m) [
    | inl below ↦ omega (arith, address_lt n m i j below h)
    | inr (inl above) ↦ omega (arith, address_lt m n j i above k)
    | inr (inr same) ↦ elim d [
      | inl slots ↦ slots same
      | inr offsets ↦ offsets (omega (arith, e, ap (λ x. x * B.lb_slot_size) same))
    ]
  ]
    where
      order : (a b : ℕ) → (a < b) ⊎ (b < a) ⊎ (a ≡ b)
      order a b = ground arith

  -- With the slots below the end of the address space: a device register that is written holds the
  -- value, and every other register of every slot holds what it held; no assertion fails.
  pub lamebus_write_register_lem :
      (n i val : ℕ) (memory : ℕ → ℕ)
      → n < B.lb_nslots
      → i < B.lb_slot_size
      → (written : ℕ → ℕ) × (lamebus_write_register B (pos n) i val memory ≡ ok written)
        × (lamebus_read_register B (pos n) i written ≡ ok val)
        × ((m j : ℕ)
            → m < B.lb_nslots
            → j < B.lb_slot_size
            → (n ≢ m) ⊎ (i ≢ j)
            → lamebus_read_register B (pos m) j written ≡ lamebus_read_register B (pos m) j memory)
  unfolding lamebus_read_register lamebus_write_register
  lamebus_write_register_lem n i val memory h k = (
    put memory (address n i) val,
    rw (lamebus_write_register, map_area_lem n i h k) refl,
    rw (lamebus_read_register, map_area_lem n i h k, put_here memory (address n i) val) refl,
    λ m j h' k' d.
        rw
          (
            lamebus_read_register,
            map_area_lem m j h' k',
            put_other memory (address n i) (address m j) val (address_differ n m i j k k' d),
          )
          refl,
  )
