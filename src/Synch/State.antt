-- ===== src/Synch/State.antt =====
-- The structures of Projects/OS161/kern/include/synch.h, by their addresses. A thread that sleeps in
-- one of the primitives is in the loop of `P` or of `lock_acquire`: `resting` says of each thread in
-- which, with its argument and its local `spl`.
use windborne.Base.{ℕ, ◌==◌, ◌≡◌, ◌≢◌, arith, Option, String, if◌then◌else◌}
use windborne.Base.Int.{ℤ}
use windborne.Platform.{Platform}
use windborne.Thread.State.{Sys}

pub record Semaphore : Type 0 where
  pub name : String
  pub count : ℤ

pub record Lock : Type 0 where
  pub name : String
  pub holder : Option ℕ
  pub held : ℤ

pub data Resting : Type 0 where
  outside : Resting
  in_proberen in_acquire : (at : ℕ) (spl : ℤ) → Resting

pub record Synch (P : Platform) : Type 0 where
  pub sys : Sys P
  pub sems : ℕ → Option Semaphore
  pub locks : ℕ → Option Lock
  pub cvs : ℕ → Option String
  pub resting : ℕ → Resting

-- A store into one of the maps.
abbrev pub put {ℓ} : {A : Type ℓ} → (ℕ → A) → ℕ → A → ℕ → A
put f p a q = if p == q then a else f q

pub put_here {ℓ} : {A : Type ℓ} (f : ℕ → A) (p : ℕ) (a : A) → put f p a p ≡ a
put_here f p a = ground arith

pub put_other {ℓ} : {A : Type ℓ} (f : ℕ → A) (p q : ℕ) (a : A) → p ≢ q → put f p a q ≡ f q
put_other f p q a d = ground arith
