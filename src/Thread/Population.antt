-- ===== src/Thread/Population.antt =====
-- The invariant across `thread_fork` of Projects/OS161/kern/thread/thread.c.
use windborne.Base.{
  ℕ, ◌+◌, ◌≤◌, ◌<◌, ◌≡◌, refl, ap, ◌∙◌, inl, inr, true, ◌∷◌, [], Option, none, some, String, ok,
  arith, length, length-append, count, count-cons, count-snoc, ℕ_discrete, subst,
}
use windborne.Platform.{Platform, Laws}
use windborne.Thread.State.{Thread, Sys, magic_ok}
use windborne.Thread.Fork.{Memory, thread_fork}
use windborne.Thread.Reaping.{IsDead}
use windborne.Thread.Invariant.{Inv, IsFrame, IsParked}
use windborne.Thread.Resuming.{update_other}
use windborne.Thread.Switching.{store_case}
use windborne.Thread.ForkBranches.{Refused, Forked}
use windborne.Thread.Creation.{IsFresh, thread_fork_lem}

module _ {P : Platform} {cur : ℕ} {s0 : Sys P} (v : Inv P cur s0) where
  pub Refused-Inv : (s : Sys P) → Refused s0 s → Inv P cur s
  Refused-Inv s r = record {
    running = r.curthread ∙ v.running;
    current = rw (r.heap cur) v.current;
    parked = λ p c.
        rw (r.heap p) (v.parked p (omega (arith, ap (count p) r.ready, ap (count p) r.asleep)));
    dead = λ p c. rw (r.heap p) (v.dead p (omega (arith, ap (count p) r.dead)));
    unique = λ p. omega (
      arith,
      v.unique p,
      ap (count p) r.ready,
      ap (count p) r.asleep,
      ap (count p) r.dead,
      count-cons p cur (P.q_items s.runqueue),
      count-cons p cur (P.q_items s0.runqueue),
    );
    population = omega (arith, v.population, r.numthreads, ap length r.ready, ap length r.asleep);
    q_space = omega (arith, v.q_space, r.q_room, r.numthreads);
    space = omega (arith, v.space, r.room, r.numthreads);
    consistent = rw r.cpu v.consistent;
  }

  module _ (p : ℕ) (t : Thread) (fresh : s0.heap p ≡ none) where
    -- A thread at a fresh address is on no list.
    not_listed : 0 < count p (P.q_items s0.runqueue) + count p (P.items s0.sleepers) → ⊥
    not_listed c = let (u, l, _, _) = v.parked p c in cc (fresh, l)

    not_dead : 0 < count p (P.items s0.zombies) → ⊥
    not_dead c = let (u, l, _, _) = v.dead p c in cc (fresh, l)

    not_running : p ≡ cur → ⊥
    not_running e = let (u, l, _) = v.current in cc (fresh, l, ap s0.heap e)

    pub Forked-Inv :
        (s : Sys P)
        → magic_ok t.t_stack ≡ true
        → IsFrame t.t_pcb.pcb_switchstack
        → Forked s0 p t s
        → Inv P cur s
    Forked-Inv s m k f = record {
      running = f.curthread ∙ v.running;
      current =
          rw (ap (λ h. h cur) f.heap, update_other s0.heap p (some t) cur not_running) v.current;
      parked = λ q c. rw f.heap (
          store_case IsParked s0.heap p (some t) q (λ e. (t, refl, m, k))
            (λ n. v.parked q (listed q c n)));
      dead = λ q c. rw f.heap (
          store_case IsDead s0.heap p (some t) q
            (λ e. absurd (not_dead (rw e (omega (arith, ap (count q) f.dead)))))
            (λ n. v.dead q (omega (arith, ap (count q) f.dead))));
      unique = λ q. elim (ℕ_discrete p q) [
        | yes e ↦
            subst
              (λ x.
                count x (cur ∷ P.q_items s.runqueue)
                  + count x (P.items s.sleepers)
                  + count x (P.items s.zombies)
                ≤ 1)
              e once
        | no n ↦ ground (
          arith,
          v.unique q,
          added q,
          count-cons q p (P.q_items s0.runqueue),
          ap (count q) f.asleep,
          ap (count q) f.dead,
          count-cons q cur (P.q_items s.runqueue),
          count-cons q cur (P.q_items s0.runqueue),
        )
      ];
      population = omega (
        arith,
        v.population,
        f.numthreads,
        ap length f.ready,
        length-append (P.q_items s0.runqueue) (p ∷ []),
        ap length f.asleep,
      );
      q_space = omega (arith, f.q_room, f.numthreads);
      space = omega (arith, f.room, f.numthreads);
      consistent = rw f.cpu v.consistent;
    }
      where
        added : (q : ℕ) → count q (P.q_items s.runqueue) ≡ count q (p ∷ P.q_items s0.runqueue)
        added q = ap (count q) f.ready ∙ count-snoc q (P.q_items s0.runqueue) p

        once :
            count p (cur ∷ P.q_items s.runqueue)
              + count p (P.items s.sleepers)
              + count p (P.items s.zombies)
            ≤ 1
        once = ground (
          arith,
          not_listed,
          not_dead,
          not_running,
          added p,
          count-cons p p (P.q_items s0.runqueue),
          count-cons p cur (P.q_items s.runqueue),
          ap (count p) f.asleep,
          ap (count p) f.dead,
        )

        listed :
            (q : ℕ)
            → 0 < count q (P.q_items s.runqueue) + count q (P.items s.sleepers)
            → (p ≡ q → ⊥)
            → 0 < count q (P.q_items s0.runqueue) + count q (P.items s0.sleepers)
        listed q c n = ground (
          arith,
          ap (count q) f.ready,
          ap (count q) f.asleep,
          count-snoc q (P.q_items s0.runqueue) p,
          count-cons q p (P.q_items s0.runqueue),
        )

-- `thread_fork`, with an allocator that returns unused memory and has memory for the process table,
-- keeps the invariant on every branch, for the thread that called it.
pub thread_fork-Inv :
    {P : Platform} (L : Laws P) (m : Memory) (name : String) (data1 data2 func cur : ℕ) (s : Sys P)
    → Inv P cur s
    → IsFresh m s
    → (code : ℕ) × (ret : Option ℕ) × (s' : Sys P) × (thread_fork P m name data1 data2 func s
        ≡ ok (code, ret, s'))
      × Inv P cur s'
thread_fork-Inv L m name data1 data2 func cur s v k =
    let (me, here, _) = v.current in
    let (code, ret, s', result, end) =
      thread_fork_lem L m name data1 data2 func s cur me here v k in
    (
      code,
      ret,
      s',
      result,
      elim end [
        | inl (p, e, _, _, f) ↦ Forked-Inv v p _ (k.fresh p e) s' refl tt f
        | inr (_, _, r) ↦ Refused-Inv v s' r
      ],
    )
