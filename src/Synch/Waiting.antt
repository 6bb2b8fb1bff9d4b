-- ===== src/Synch/Waiting.antt =====
-- What holds of threads, semaphores and locks of Projects/OS161/kern/thread/synch.c between the
-- steps of threads.
use windborne.Base.{
  ℕ, ◌<◌, ◌≡◌, ◌≢◌, refl, none, sym, ap, ◌∙◌, subst, ◌⊎◌, inl, inr, Option, true, some, arith,
  count, ℕ_discrete,
}
use mathlib.Core.Option.{some-injective}
use windborne.Base.Int.{pos, ◌≤ℤ◌}
use windborne.Spl.{is_zero}
use windborne.Platform.{Platform}
use windborne.Thread.State.{Sys}
use windborne.Thread.Invariant.{Inv}
use windborne.Thread.Resuming.{sleep_address}
use windborne.Thread.Parking.{FewerAsleep}
use windborne.Synch.State.{
  Semaphore, Lock, Synch, Resting, outside, in_proberen, in_acquire, put, put_here, put_other,
}
use windborne.Synch.Mutex.{Move}
use windborne.Synch.Ownership.{IsLock, owner}

-- A thread waits where there is something to wait for: on a semaphore whose count is 0, or on a
-- lock that is held.
abbrev pub Waits : (ℕ → Option Semaphore) → (ℕ → Option Lock) → Option ℕ → Type 0
Waits sems locks o =
    (a : ℕ) × (o ≡ some a)
    × (((k : Semaphore) × (sems a ≡ some k) × (k.count ≡ pos 0))
        ⊎ ((l : Lock) × (locks a ≡ some l) × (l.held ≡ pos 1)))

-- The level that a loop is to restore.
abbrev pub IsLevel : Resting → Type 0
IsLevel outside = Unit
IsLevel (in_proberen sem spl) = pos 0 ≤ℤ spl
IsLevel (in_acquire at spl) = pos 0 ≤ℤ spl

-- Every thread that sleeps does so in one of the two ways.
abbrev pub AllWait : {P : Platform} → Synch P → Type 0
AllWait {P} s =
    (p : ℕ)
    → 0 < count p (P.items s.sys.sleepers)
    → Waits s.sems s.locks (sleep_address (s.sys.heap p))

-- Thread `cur` runs.
pub record Sound {P : Platform} (cur : ℕ) (s : Synch P) : Type 0 where
  pub threads : Inv P cur s.sys
  pub counts : (a : ℕ) (k : Semaphore) → s.sems a ≡ some k → pos 0 ≤ℤ k.count
  pub flags : (a : ℕ) (l : Lock) → s.locks a ≡ some l → IsLock l
  pub levels : (p : ℕ) → IsLevel (s.resting p)
  pub asleep : AllWait s

-- Some thread runs.
abbrev pub IsSound : {P : Platform} → Synch P → Type 0
IsSound s = (cur : ℕ) × Sound cur s

-- Locks that are held by threads other than the one that runs in `s` stay theirs.
abbrev pub KeepsLocks : {P : Platform} → Synch P → Synch P → Type 0
KeepsLocks s s' =
    (at : ℕ) (l : Lock) (p : ℕ)
    → s.locks at ≡ some l
    → owner l ≡ some p
    → s.sys.curthread ≢ some p
    → s'.locks at ≡ some l

-- The owner of a lock that may not be there.
abbrev pub owner_of : Option Lock → Option ℕ
owner_of none = none
owner_of (some l) = owner l

-- The thread that runs does to each lock what can be done to a mutex.
abbrev pub MovesLocks : {P : Platform} → Synch P → Synch P → Type 0
MovesLocks s s' =
    (me : ℕ)
    → s.sys.curthread ≡ some me
    → (at : ℕ) → Move me (owner_of (s.locks at)) (owner_of (s'.locks at))

-- What a step leads to.
abbrev pub Leads : {P : Platform} → Synch P → Synch P → Type 0
Leads s s' = IsSound s' × KeepsLocks s s' × MovesLocks s s'

-- A predicate of what a map holds, across a store.
pub put_case {ℓ} :
    {A : Type ℓ} (Q : A → Type 0) (f : ℕ → A) (p : ℕ) (a : A) (q : ℕ)
    → (p ≡ q → Q a)
    → (p ≢ q → Q (f q))
    → Q (put f p a q)
put_case Q f p a q hit miss = elim (ℕ_discrete p q) [
  | yes e ↦ subst (λ x. Q (put f p a x)) e (subst Q (sym (put_here f p a)) (hit e))
  | no n ↦ subst Q (sym (put_other f p q a n)) (miss n)
]

-- The same of what is not NULL.
pub put_each :
    {A : Type 0} (Q : A → Type 0) (f : ℕ → Option A) (p : ℕ) (o : Option A)
    → ((b : A) → o ≡ some b → Q b)
    → ((q : ℕ) (b : A) → f q ≡ some b → Q b)
    → (q : ℕ) (b : A) → put f p o q ≡ some b
    → Q b
put_each Q f p o hit miss q b e =
    put_case (λ x. x ≡ some b → Q b) f p o q (λ _ h. hit b h) (λ _ h. miss q b h) e

pub only {ℓ} : {A : Type ℓ} (Q : A → Type 0) (a : A) → Q a → (b : A) → some a ≡ some b → Q b
only Q a q b e = subst Q (some-injective a b e) q

module _ {P : Platform} where
  -- A call into thread.c that lets nobody fall asleep.
  pub FewerAsleep-Sound :
      (cur nu : ℕ) (s : Synch P) (t : Sys P)
      → Sound cur s
      → Inv P nu t
      → FewerAsleep s.sys t
      → Sound nu (record s { sys = t })
  FewerAsleep-Sound cur nu s t d v fewer = record {
    threads = v;
    counts = d.counts;
    flags = d.flags;
    levels = d.levels;
    asleep = λ p c.
        let (there, same) = fewer p c in subst (Waits s.sems s.locks) (sym same) (d.asleep p there);
  }

  -- Other semaphores and locks, with the same threads.
  pub objects-Sound :
      (cur : ℕ) (s : Synch P) (sems : ℕ → Option Semaphore) (locks : ℕ → Option Lock)
      → Sound cur s
      → ((a : ℕ) (k : Semaphore) → sems a ≡ some k → pos 0 ≤ℤ k.count)
      → ((a : ℕ) (l : Lock) → locks a ≡ some l → IsLock l)
      → ((o : Option ℕ) → Waits s.sems s.locks o → Waits sems locks o)
      → Sound cur (record s { sems = sems; locks = locks })
  objects-Sound cur s sems locks d counts flags waits = record {
    threads = d.threads;
    counts = counts;
    flags = flags;
    levels = d.levels;
    asleep = λ p c. waits (sleep_address (s.sys.heap p)) (d.asleep p c);
  }

-- A store to a semaphore whose count is not 0, or which is not there, ends nobody's wait.
pub Waits-sems :
    (sems : ℕ → Option Semaphore) (locks : ℕ → Option Lock) (sem : ℕ) (n : Option Semaphore)
    (o : Option ℕ)
    → ((k : Semaphore) → sems sem ≡ some k → k.count ≢ pos 0)
    → Waits sems locks o
    → Waits (put sems sem n) locks o
Waits-sems sems locks sem n o busy (a, e, inl (k, there, zero_count)) = (
  a,
  e,
  inl (
    k,
    put_other sems sem a n (λ same. busy k (ap sems same ∙ there) zero_count) ∙ there,
    zero_count,
  ),
)
Waits-sems sems locks sem n o busy (a, e, inr w) = (a, e, inr w)

-- A store to a lock that is not held, or which is not there, ends nobody's wait.
pub Waits-locks :
    (sems : ℕ → Option Semaphore) (locks : ℕ → Option Lock) (at : ℕ) (n : Option Lock)
    (o : Option ℕ)
    → ((l : Lock) → locks at ≡ some l → l.held ≢ pos 1)
    → Waits sems locks o
    → Waits sems (put locks at n) o
Waits-locks sems locks at n o busy (a, e, inl w) = (a, e, inl w)
Waits-locks sems locks at n o busy (a, e, inr (l, there, held)) = (
  a,
  e,
  inr (l, put_other locks at a n (λ same. busy l (ap locks same ∙ there) held) ∙ there, held),
)

-- The same of its owner.
pub not_owned :
    (l m : Lock) (p : ℕ) → is_zero l.held ≡ true → some l ≡ some m → owner m ≡ some p → ⊥
not_owned l m p free e o =
    let same : is_zero m.held ≡ true =
      subst (λ (x : Lock). is_zero x.held ≡ true) (some-injective l m e) free in
    ground (arith, same, o)

pub free_owner : (l : Lock) → is_zero l.held ≡ true → owner l ≡ none
free_owner l free = rw free refl

-- A store to a lock that no other thread than the running one holds.
pub put-KeepsLocks :
    {P : Platform} (s : Synch P) (at : ℕ) (n : Option Lock)
    → ((m : Lock) (p : ℕ) → s.locks at ≡ some m → owner m ≡ some p → s.sys.curthread ≢ some p → ⊥)
    → (b : ℕ) (m : Lock) (p : ℕ) → s.locks b ≡ some m
    → owner m ≡ some p
    → s.sys.curthread ≢ some p
    → put s.locks at n b ≡ some m
put-KeepsLocks s at n free b m p e o r =
    put_other s.locks at b n (λ same. free m p (ap s.locks same ∙ e) o r) ∙ e

-- A store that does to one lock what can be done to a mutex.
pub put-MovesLocks :
    {P : Platform} (s : Synch P) (at : ℕ) (n : Option Lock) (me : ℕ)
    → Move me (owner_of (s.locks at)) (owner_of n)
    → (b : ℕ) → Move me (owner_of (s.locks b)) (owner_of (put s.locks at n b))
put-MovesLocks s at n me move b =
    put_case (λ x. Move me (owner_of (s.locks b)) (owner_of x)) s.locks at n b
      (λ e. subst (λ x. Move me (owner_of (s.locks x)) (owner_of n)) e move) (λ _. inl refl)

-- A store to a semaphore or a lock on which nobody sleeps.
pub Waits-elsewhere :
    (sems : ℕ → Option Semaphore) (locks : ℕ → Option Lock) (at : ℕ) (o : Option ℕ)
    → o ≢ some at
    → Waits sems locks o
    → ((n : Option Semaphore) → Waits (put sems at n) locks o)
      × ((n : Option Lock) → Waits sems (put locks at n) o)
Waits-elsewhere sems locks at o free (a, e, inl (k, there, zero_count)) =
    let differ : at ≢ a = λ same. free (e ∙ ap some (sym same)) in
    (
      λ n. (a, e, inl (k, put_other sems at a n differ ∙ there, zero_count)),
      λ n. (a, e, inl (k, there, zero_count)),
    )
Waits-elsewhere sems locks at o free (a, e, inr (l, there, held)) =
    let differ : at ≢ a = λ same. free (e ∙ ap some (sym same)) in
    (
      λ n. (a, e, inr (l, there, held)),
      λ n. (a, e, inr (l, put_other locks at a n differ ∙ there, held)),
    )
