-- ===== src/Stoplight/Vehicles.antt =====
-- What `createvehicles` of Projects/OS161/kern/asst1/stoplight.c sets up.
use windborne.Base.{
  ℕ, ◌≡◌, refl, ◌∙◌, ◌⊎◌, inl, inr, Bool, true, false, List, [], ◌∷◌, Option, none, some, String,
  Outcome, ok, panic, panicked, length, ℕ_discrete, subst,
}
use mathlib.Core.Option.{some-injective}
use windborne.Base.Int.{pos}
use windborne.Platform.{Platform, Laws}
use windborne.Thread.State.{Thread, Sys}
use windborne.Thread.Fork.{Memory}
use windborne.Thread.Invariant.{Inv}
use windborne.Thread.Creation.{IsFresh}
use windborne.Synch.State.{Synch, Lock, put, put_here, put_other}
use windborne.Synch.Locks.{lock_create}
use windborne.Cats.Forks.{AreChildren, Extends, AForkFails, fork_loop_lem}
use windborne.Stoplight.Creating.{Globals, create_locks, createvehicles}

-- The lock is allocated, and nobody holds it.
abbrev pub IsFree : Option Lock → Type 0
IsFree o = (l : Lock) × (o ≡ some l) × (l.holder ≡ none) × (l.held ≡ pos 0)

put-IsFree :
    (f : ℕ → Option Lock) (a p : ℕ) (l : Lock)
    → l.holder ≡ none
    → l.held ≡ pos 0
    → IsFree (f p)
    → IsFree (put f a (some l) p)
put-IsFree f a p l h k old = elim (ℕ_discrete a p) [
  | yes e ↦ subst (λ q. IsFree (put f a (some l) q)) e (l, put_here f a (some l), h, k)
  | no n ↦ rw (put_other f a p (some l) n) old
]

-- The locks that are not NULL are free.
abbrev pub AllFree : {P : Platform} → List (Option ℕ) → Synch P → Type 0
AllFree [] s = Unit
AllFree (o ∷ os) s = ((p : ℕ) → o ≡ some p → IsFree (s.locks p)) × AllFree os s

abbrev pub all_locks : Globals → List (Option ℕ)
all_locks g = g.tl_c ∷ g.tl_b ∷ g.tl_a ∷ g.tempy ∷ g.lock_ca ∷ g.lock_bc ∷ g.lock_ab ∷ []

module _ {P : Platform} where
  -- Locks that are free stay free, and the thread system is as it was.
  abbrev Keeps : Synch P → Synch P → Type 0
  Keeps s s1 = (s1.sys ≡ s.sys) × ((p : ℕ) → IsFree (s.locks p) → IsFree (s1.locks p))

  AllFree-Keeps :
      (os : List (Option ℕ)) (s s1 : Synch P) → Keeps s s1 → AllFree os s → AllFree os s1
  AllFree-Keeps [] s s1 k a = tt
  AllFree-Keeps (o ∷ os) s s1 k (f, a) = (λ p e. k.1 p (f p e), AllFree-Keeps os s s1 k a)

  -- A further lock in front of locks that are free.
  create_lem :
      (kmalloc : Option ℕ × Bool) (name : String) (s : Synch P) (os : List (Option ℕ))
      → AllFree os s
      → (o : Option ℕ) × (s1 : Synch P) × (lock_create P kmalloc.0 kmalloc.1 name s ≡ ok (o, s1))
        × (s1.sys ≡ s.sys)
        × AllFree (o ∷ os) s1
  unfolding lock_create
  create_lem (none, b) name s os a = (none, s, refl, refl, (λ p e. cc, a))
  create_lem (some q, false) name s os a = (none, s, refl, refl, (λ p e. cc, a))
  create_lem (some q, true) name s os a =
      let l : Lock = record { name = name; holder = none; held = pos 0 } in
      let s1 : Synch P = record s { locks = put s.locks q (some l) } in
      (
        some q,
        s1,
        refl,
        refl,
        (
          λ p e.
              subst (λ x. IsFree (put s.locks q (some l) x)) (some-injective q p e)
                (l, put_here s.locks q (some l), refl, refl),
          AllFree-Keeps os s s1 (refl, λ p f. put-IsFree s.locks q p l refl refl f) a,
        ),
      )

  create_locks_lem :
      (kmalloc : ℕ → Option ℕ × Bool) (s : Synch P)
      → (g : Globals) × (s1 : Synch P) × (create_locks P kmalloc s ≡ ok (g, s1))
        × (s1.sys ≡ s.sys)
        × AllFree (all_locks g) s1
        × (g.cars_a ≡ pos 0)
        × (g.cars_b ≡ pos 0)
        × (g.cars_c ≡ pos 0)
  unfolding create_locks
  create_locks_lem kmalloc s =
      let (o1, s1, e1, y1, a1) = create_lem (kmalloc 0) "AB" s [] tt in
      let (o2, s2, e2, y2, a2) = create_lem (kmalloc 1) "BC" s1 (o1 ∷ []) a1 in
      let (o3, s3, e3, y3, a3) = create_lem (kmalloc 2) "CA" s2 (o2 ∷ o1 ∷ []) a2 in
      let (o4, s4, e4, y4, a4) = create_lem (kmalloc 3) "temp" s3 (o3 ∷ o2 ∷ o1 ∷ []) a3 in
      let (o5, s5, e5, y5, a5) = create_lem (kmalloc 4) "truckA" s4 (o4 ∷ o3 ∷ o2 ∷ o1 ∷ []) a4 in
      let (o6, s6, e6, y6, a6) =
        create_lem (kmalloc 5) "truckB" s5 (o5 ∷ o4 ∷ o3 ∷ o2 ∷ o1 ∷ []) a5 in
      let (o7, s7, e7, y7, a7) =
        create_lem (kmalloc 6) "truckC" s6 (o6 ∷ o5 ∷ o4 ∷ o3 ∷ o2 ∷ o1 ∷ []) a6 in
      (
        record {
          lock_ab = o1;
          lock_bc = o2;
          lock_ca = o3;
          tempy = o4;
          tl_a = o5;
          tl_b = o6;
          tl_c = o7;
          cars_a = pos 0;
          cars_b = pos 0;
          cars_c = pos 0;
        },
        s7,
        rw (create_locks, e1, e2, e3, e4, e5, e6, e7) refl,
        y7 ∙ y6 ∙ y5 ∙ y4 ∙ y3 ∙ y2 ∙ y1,
        a7,
        refl,
        refl,
        refl,
      )

-- The ends of `createvehicles`: all vehicles are ready, or a fork failed.
abbrev pub Created :
    {P : Platform}
    → (Sys P → Memory)
    → ℕ
    → Option ℕ
    → ℕ
    → Synch P
    → Outcome (ℕ × Globals × Synch P)
    → Type 0
Created {P} allocate cur cwd func s o =
    ((g : Globals) × (s1 : Synch P) × (vehicles : List ℕ) × (o ≡ ok (0, g, s1))
      × AllFree (all_locks g) s1
      × ((g.cars_a ≡ pos 0) × (g.cars_b ≡ pos 0) × (g.cars_c ≡ pos 0))
      × (length vehicles ≡ 20)
      × Extends s.sys vehicles s1.sys
      × AreChildren "approachintersection thread" cwd func 0 vehicles s1.sys
      × Inv P cur s1.sys)
    ⊎ (o ≡ panic panicked) × AForkFails allocate cur 20 0 "approachintersection thread" func s.sys

module _ {P : Platform} (L : Laws P) (allocate : Sys P → Memory)
    (fresh : (s : Sys P) → IsFresh (allocate s) s) (cur : ℕ) (me : Thread) where
  -- `createvehicles`, called from the invariant, with an allocator that returns unused memory for
  -- threads and has memory for the process table, whatever memory there is for the locks, and with
  -- no interrupt between its calls. Either it returns 0, every lock that is not NULL is allocated
  -- and free, no car is counted, and behind the threads that were ready there are twenty new
  -- threads at `approachintersection` with the numbers 0 to 19, in the caller's directory, while no
  -- other thread has changed and the invariant holds; or it panics, and one of its own calls of
  -- `thread_fork`, made in the state that its rounds before it have come to, has returned an error.
  pub createvehicles_lem :
      (kmalloc : ℕ → Option ℕ × Bool) (approachintersection : ℕ) (s : Synch P)
      → s.sys.heap cur ≡ some me
      → Inv P cur s.sys
      → Created allocate cur me.t_cwd approachintersection s
          (createvehicles P allocate kmalloc approachintersection s)
  unfolding createvehicles
  createvehicles_lem kmalloc func s here v =
      let (g, s1, e, same, free, a, b, c) = create_locks_lem kmalloc s in
      let name : String = "approachintersection thread" in
      elim (fork_loop_lem L allocate fresh cur name func 20 0 s.sys me here v) [
        | inl (t, ps, o, n, x, k, w) ↦
            inl (g, record s1 { sys = t }, ps, rw (e, same, o) refl, free, (a, b, c), n, x, k, w)
        | inr (o, fails) ↦ inr (rw (e, same, o) refl, fails)
      ]
