-- ===== src/Thread/Reaping.antt =====
-- What `exorcise` of Projects/OS161/kern/thread/thread.c does: every zombie is freed, and nothing
-- else.
use windborne.Base.{
  ℕ, zero, suc, ◌+◌, ◌≤◌, ◌<◌, ◌≡◌, refl, ◌∙◌, true, List, [], ◌∷◌, ◌++◌, Option, none, some, ok,
  length, length-append, arith, All, All-agree, count, count-cons, count-nil, count-cons_self,
  append_assoc, sym,
}
use windborne.Spl.{spl_raised}
use windborne.Platform.{Platform, Laws}
use windborne.Platform.Indexing.{index_guy}
use windborne.Thread.State.{Thread, Sys, update}
use windborne.Thread.Switch.{thread_destroy, exorcise_loop, exorcise}

-- A thread that has been through `thread_exit`.
abbrev pub IsDead : Option Thread → Type 0
IsDead o = (t : Thread) × (o ≡ some t) × (t.t_vmspace ≡ none) × (t.t_cwd ≡ none)

pub free_all : List ℕ → (ℕ → Option Thread) → ℕ → Option Thread
free_all [] h = h
free_all (z ∷ zs) h = free_all zs (update h z none)

-- A thread that is not on the list stays.
pub free_all_other :
    (zs : List ℕ) (h : ℕ → Option Thread) (p : ℕ) → count p zs ≡ 0 → free_all zs h p ≡ h p
unfolding free_all
free_all_other [] h p c = refl
free_all_other (z ∷ zs) h p c =
    ground (arith, count-cons p z zs, free_all_other zs (update h z none) p)

free_all-none : (zs : List ℕ) (h : ℕ → Option Thread) (p : ℕ) → h p ≡ none → free_all zs h p ≡ none
unfolding free_all
free_all-none [] h p e = e
free_all-none (z ∷ zs) h p e = free_all-none zs (update h z none) p (ground arith)

-- A thread that is on the list is freed.
pub free_all_listed :
    (zs : List ℕ) (h : ℕ → Option Thread) (p : ℕ) → 0 < count p zs → free_all zs h p ≡ none
unfolding free_all
free_all_listed [] h p c = absurd (omega (arith, count-nil p))
free_all_listed (z ∷ zs) h p c = ground (
  arith,
  count-cons p z zs,
  free_all_listed zs (update h z none) p,
  free_all-none zs (update h z none) p,
)

update-IsDead :
    (z : ℕ) (zs : List ℕ) (h : ℕ → Option Thread)
    → count z zs ≡ 0
    → All (λ p. IsDead (h p)) zs
    → All (λ p. IsDead (update h z none p)) zs
update-IsDead z zs h c a = All-agree IsDead h (update h z none) zs (λ p k. ground arith) a

module _ (P : Platform) where
  destroy_lem :
      (z cur : ℕ) (s : Sys P)
      → s.curthread ≡ some cur
      → (z ≡ cur → ⊥)
      → IsDead (s.heap z)
      → thread_destroy P z s ≡ ok (record s { heap = update s.heap z none })
  unfolding thread_destroy
  destroy_lem z cur s e n d = ground arith

  loop_done : (i : ℕ) (s : Sys P) → exorcise_loop P zero i s ≡ ok s
  unfolding exorcise_loop
  loop_done i s = refl

  loop_step :
      (n i z cur : ℕ) (s : Sys P)
      → P.array_getguy s.zombies i ≡ z
      → s.curthread ≡ some cur
      → (z ≡ cur → ⊥)
      → IsDead (s.heap z)
      → exorcise_loop P (suc n) i s
        ≡ exorcise_loop P n (i + 1) (record s { heap = update s.heap z none })
  unfolding exorcise_loop
  loop_step n i z cur s g e d dead = rw (g, destroy_lem z cur s e d dead) (ground arith)

  -- The state with some threads freed.
  abbrev pub reaped : List ℕ → Sys P → Sys P
  reaped zs s = record s { heap = free_all zs s.heap }

  module _ (L : Laws P) where
    loop_reaps :
        (n i cur : ℕ) (s : Sys P) (pre post : List ℕ)
        → P.items s.zombies ≡ pre ++ post
        → length pre ≡ i
        → length post ≡ n
        → s.curthread ≡ some cur
        → count cur post ≡ 0
        → ((p : ℕ) → count p post ≤ 1)
        → All (λ p. IsDead (s.heap p)) post
        → exorcise_loop P n i s ≡ ok (reaped post s)
    unfolding free_all
    loop_reaps zero i cur s pre [] e l m c o u a = loop_done i s
    loop_reaps zero i cur s pre (z ∷ zs) e l m c o u a = absurd (omega arith)
    loop_reaps (suc n) i cur s pre [] e l m c o u a = absurd (omega arith)
    loop_reaps (suc n) i cur s pre (z ∷ zs) e l m c o u a =
        loop_step n i z cur s (index_guy L s.zombies pre zs z i e l) c
          (λ q. ground (arith, count-cons cur z zs)) a.0
        ∙ loop_reaps n (i + 1) cur (record s { heap = update s.heap z none }) (pre ++ z ∷ []) zs
            (e ∙ sym (append_assoc pre (z ∷ []) zs)) (omega (arith, length-append pre (z ∷ [])))
            (omega arith) c (omega (arith, count-cons cur z zs))
            (λ p. omega (arith, count-cons p z zs, u p))
            (update-IsDead z zs s.heap (omega (arith, count-cons_self z zs, u z)) a.1)

    -- With interrupts off, and every zombie a thread that has been through `thread_exit`, listed
    -- once and not running, `exorcise` returns with no assertion failing. It frees the zombies,
    -- empties their list, and changes nothing else.
    pub exorcise_lem :
        (cur : ℕ) (s : Sys P)
        → spl_raised s.cpu ≡ true
        → s.curthread ≡ some cur
        → count cur (P.items s.zombies) ≡ 0
        → ((p : ℕ) → count p (P.items s.zombies) ≤ 1)
        → All (λ p. IsDead (s.heap p)) (P.items s.zombies)
        → (z : P.Array) × (exorcise P s
            ≡ ok (record s { heap = free_all (P.items s.zombies) s.heap; zombies = z }))
          × (P.items z ≡ [])
    unfolding exorcise
    exorcise_lem cur s r c o u a =
        let freed =
          loop_reaps (P.array_getnum s.zombies) 0 cur s [] (P.items s.zombies) refl refl
            (sym (L.getnum s.zombies)) c o u a in
        (
          (P.array_setsize s.zombies 0).1,
          rw (r, freed, L.setsize_zero s.zombies) refl,
          L.setsize_zero-items s.zombies,
        )
