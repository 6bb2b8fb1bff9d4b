-- ===== src/Base/Results.antt =====
-- What a run of kernel code ends in: a value, a panic (a failed `assert` of kern/include/lib.h is
-- one), a wait for an interrupt that never comes, or, in a model of a loop, the end of its fuel.
use mathlib.Core.Path.{◌≡◌, refl}
use mathlib.Core.Bool.{Bool, true, false}
use mathlib.Core.Option.{Option, none, some}

pub data Fault : Type 0 where
  assertion panicked bad_pointer : Fault

pub data Outcome {ℓ} (A : Type ℓ) : Type ℓ where
  ok : A → Outcome A
  panic : Fault → Outcome A
  idle : Outcome A
  out_of_fuel : Outcome A

pub ok_inj {ℓ} : {A : Type ℓ} {a b : A} → ok a ≡ ok b → a ≡ b
ok_inj e = cc

module _ {ℓ κ} {A : Type ℓ} {B : Type κ} where
  infixl 5 ◌>>=◌
  abbrev pub ◌>>=◌ : Outcome A → (A → Outcome B) → Outcome B
  out_of_fuel >>= next = out_of_fuel
  idle >>= next = idle
  panic fault >>= next = panic fault
  ok value >>= next = next value

  -- Inversion of a successful bind.
  pub >>=-eq-ok :
      (m : Outcome A) (next : A → Outcome B) {result : B}
      → (m >>= next) ≡ ok result
      → (value : A) × (m ≡ ok value) × (next value ≡ ok result)
  >>=-eq-ok out_of_fuel next e = cc
  >>=-eq-ok idle next e = cc
  >>=-eq-ok (panic fault) next e = cc
  >>=-eq-ok (ok value) next e = (value, refl, e)

infixl 5 ◌>>◌
abbrev pub ◌>>◌ {κ} : {B : Type κ} → Outcome (Unit {0}) → Outcome B → Outcome B
first >> second = first >>= λ _. second

-- `assert(b)`
abbrev pub check : Bool → Outcome (Unit {0})
check true = ok tt
check false = panic assertion

-- The target of a pointer that has to be valid.
abbrev pub deref {ℓ} : {A : Type ℓ} → Option A → Outcome A
deref none = panic bad_pointer
deref (some a) = ok a
