-- ===== src/Thread/Parking.antt =====
-- How `mi_switch` of Projects/OS161/kern/thread/thread.c puts the old thread on a list, and what
-- the whole switch keeps.
use windborne.Base.{
  ℕ, ◌+◌, ◌≤◌, ◌<◌, ◌≡◌, refl, ap, inl, inr, true, subst, ℕ_discrete, List, [], ◌∷◌, ◌++◌,
  count-snoc, none, some, Outcome, ok, idle, ◌⊎◌, ◌>>=◌, arith, length, length-append, count,
  count-cons, All-of,
}
use windborne.Spl.{spl_raised}
use windborne.Platform.{Platform, Laws}
use windborne.Thread.State.{Thread, Frame, ThreadState, s_ready, s_sleep, Sys, magic_ok}
use windborne.Thread.Scheduler.{make_runnable, scheduler}
use windborne.Thread.Wakeup.{IsLive}
use windborne.Thread.Choice.{scheduler_lem}
use windborne.Thread.Switch.{stash, md_switch, mi_switch}
use windborne.Thread.Invariant.{Inv, IsFrame, IsIntact}
use windborne.Thread.Resuming.{sleep_address}
use windborne.Thread.Switching.{Stashed, switch_lem}

-- Who sleeps in `s'` has slept in `s`, at the same address.
abbrev pub FewerAsleep : {P : Platform} → Sys P → Sys P → Type 0
FewerAsleep {P} s s' =
    (p : ℕ)
    → 0 < count p (P.items s'.sleepers)
    → (0 < count p (P.items s.sleepers)) × (sleep_address (s'.heap p) ≡ sleep_address (s.heap p))

-- `Settles`, and nobody has fallen asleep behind the state `s`.
abbrev pub Goes : {P : Platform} → Sys P → Outcome (Sys P) → Type 0
Goes {P} s o = (o ≡ idle) ⊎ ((nu : ℕ) × (s' : Sys P) × (o ≡ ok s') × Inv P nu s' × FewerAsleep s s')

module _ {P : Platform} (L : Laws P) (cur : ℕ) (frame : Frame) (s : Sys P) where
  -- `cur` joins the run queue or the sleepers.
  module _ (v : Inv P cur s) (raised : spl_raised s.cpu ≡ true) (f : IsFrame frame) where
    joined :
        (q : P.Queue) (a : P.Array)
        → ((p : ℕ)
            → count p (P.q_items q) + count p (P.items a)
              ≡ count p (cur ∷ P.q_items s.runqueue) + count p (P.items s.sleepers))
        → length (P.q_items q) + length (P.items a)
          ≡ 1 + length (P.q_items s.runqueue) + length (P.items s.sleepers)
        → P.q_room s.runqueue ≤ P.q_room q
        → P.room s.sleepers ≤ P.room a
        → Stashed P cur frame (record s { curthread = none; runqueue = q; sleepers = a })
    joined q a same size qr ar = record {
      old = let (t, e, _) = v.current in (t, e);
      intact = λ p c. elim (ℕ_discrete cur p) [
        | yes e ↦ subst (λ x. IsIntact (s.heap x)) e v.current
        | no n ↦ let (t, e, m, _) = v.parked p (there p c n) in (t, e, m)
      ];
      parked = λ p c n. v.parked p (there p c n);
      resumable = λ c. f;
      dead = v.dead;
      unique = λ p. omega (arith, v.unique p, same p);
      population = omega (arith, v.population, size);
      q_space = omega (arith, v.q_space);
      space = omega (arith, v.space);
      consistent = v.consistent;
      raised = raised;
    }
      where
        there :
            (p : ℕ)
            → 0 < count p (P.q_items q) + count p (P.items a)
            → (cur ≡ p → ⊥)
            → 0 < count p (P.q_items s.runqueue) + count p (P.items s.sleepers)
        there p c n = ground (arith, same p, count-cons p cur (P.q_items s.runqueue))

    -- Where the code of `stash` is 0, the thread is stashed. `asleep` are the sleepers behind it.
    abbrev pub Parks : ThreadState → List ℕ → Type 0
    Parks next asleep =
        (s1 : Sys P) × (stash P next cur (record s { curthread = none }) ≡ ok (0, s1))
        × Stashed P cur frame s1
        × (s1.heap ≡ s.heap)
        × (P.items s1.sleepers ≡ asleep)

    pub ready_Parks : Parks s_ready (P.items s.sleepers)
    unfolding stash make_runnable
    ready_Parks =
        let code = L.addtail_code s.runqueue cur (omega (arith, v.population, v.q_space)) in
        let added = L.addtail-items s.runqueue cur code in
        (
          record s { curthread = none; runqueue = (P.q_addtail s.runqueue cur).1 },
          rw (raised, code) refl,
          joined (P.q_addtail s.runqueue cur).1 s.sleepers (λ p. put_last p added)
              (omega (arith, ap length added, length-append (P.q_items s.runqueue) (cur ∷ [])))
              (L.addtail-room s.runqueue cur) (omega arith),
          refl,
          refl,
        )
      where
        put_last :
            (p : ℕ)
            → P.q_items (P.q_addtail s.runqueue cur).1 ≡ P.q_items s.runqueue ++ cur ∷ []
            → count p (P.q_items (P.q_addtail s.runqueue cur).1) + count p (P.items s.sleepers)
              ≡ count p (cur ∷ P.q_items s.runqueue) + count p (P.items s.sleepers)
        put_last p e = omega (arith, ap (count p) e, count-snoc p (P.q_items s.runqueue) cur)

    pub sleep_Parks : Parks s_sleep (P.items s.sleepers ++ cur ∷ [])
    unfolding stash
    sleep_Parks =
        let code = L.add_code s.sleepers cur (omega (arith, v.population, v.space)) in
        let added = L.add-items s.sleepers cur code in
        (
          record s { curthread = none; sleepers = (P.array_add s.sleepers cur).1 },
          rw code refl,
          joined s.runqueue (P.array_add s.sleepers cur).1
              (λ p. omega (
                arith,
                ap (count p) added,
                count-snoc p (P.items s.sleepers) cur,
                count-cons p cur (P.q_items s.runqueue),
                count-cons p cur (P.items s.sleepers),
              ))
              (omega (arith, ap length added, length-append (P.items s.sleepers) (cur ∷ [])))
              (omega arith) (L.add-room s.sleepers cur),
          refl,
          added,
        )

  -- `mi_switch` behind its tests.
  pub stashed_switch :
      (wakes : List ℕ) (next : ThreadState) (t : Thread) (s1 : Sys P)
      → spl_raised s.cpu ≡ true
      → s.curthread ≡ some cur
      → s.heap cur ≡ some t
      → magic_ok t.t_stack ≡ true
      → stash P next cur (record s { curthread = none }) ≡ ok (0, s1)
      → mi_switch P wakes next frame s ≡ (
          scheduler P wakes s1 >>= λ r.
          md_switch P cur r.0 frame (record (r.1) { curthread = some r.0 }))
  unfolding mi_switch
  stashed_switch wakes next t s1 r c l m k = rw (mi_switch, r, c, l, m, k) refl

  pub Stashed-Goes :
      (wakes : List ℕ) (next : ThreadState) (s1 : Sys P)
      → spl_raised s.cpu ≡ true
      → s.curthread ≡ some cur
      → IsIntact (s.heap cur)
      → stash P next cur (record s { curthread = none }) ≡ ok (0, s1)
      → Stashed P cur frame s1
      → Goes s1 (mi_switch P wakes next frame s)
  Stashed-Goes wakes next s1 r c (t, l, m) k v =
      let e = stashed_switch wakes next t s1 r c l m k in
      elim (scheduler_lem L wakes s1 v.raised v.consistent
        (All-of (IsLive s1.heap) (P.items s1.sleepers)
          (λ p h. let (u, live, _) = v.intact p (omega arith) in (u, live)))
        (omega (arith, v.population, v.q_space))) [
          | inl waits ↦ inl (rw (e, waits) refl)
          | inr k' ↦
              let (s', result, inv, same) = switch_lem L cur frame s1 v _ k' in
              inr (
                k'.next,
                s',
                rw (e, k'.result) result,
                inv,
                λ p c.
                    let there = subst (λ a. 0 < count p (P.items a)) same.list c in
                    (omega (arith, k'.asleep p, there), same.address p there),
              )
        ]
