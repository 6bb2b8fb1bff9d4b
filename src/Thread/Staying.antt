-- ===== src/Thread/Staying.antt =====
-- Who goes on sleeping while `scheduler` of Projects/OS161/kern/thread/scheduler.c looks for a thread
-- to run.
use windborne.Base.{
  ℕ, ◌+◌, ◌≤◌, ◌<◌, ◌≡◌, ◌≢◌, refl, ap, sym, ◌∙◌, subst, ◌⊎◌, inl, inr, Bool, true, false, List, [],
  ◌∷◌, Option, none, some, ok, idle, ok_inj, length, length-append, arith, All, All-of, count,
  count-cons, ℕ_discrete, Bool-cases,
}
use windborne.Spl.{spl_raised}
use windborne.Spl.Nesting.{IsConsistent}
use windborne.Platform.{Platform, Laws}
use windborne.Thread.State.{Thread, Frame, ThreadState, Sys, sleeps_at}
use windborne.Thread.Scheduler.{scheduler_loop, scheduler}
use windborne.Thread.Wakeup.{IsLive, woken, kept, asleep_at, thread_wakeup_lem, length-woken-kept}
use windborne.Thread.Choice.{scheduler_ready, scheduler_lem, idle_cpu, idle_round, kept-IsLive}
use windborne.Thread.Switch.{stash, mi_switch}
use windborne.Thread.Invariant.{IsIntact}
use windborne.Thread.Resuming.{sleep_address}
use windborne.Thread.Switching.{Stashed, switch_lem}
use windborne.Thread.Parking.{stashed_switch}

-- A thread that sleeps at `a` sleeps on, or an interrupt has woken the sleepers at `a`.
abbrev pub Stays : {P : Platform} → List ℕ → Sys P → Sys P → Type 0
Stays {P} wakes s s' =
    (p a : ℕ)
    → sleep_address (s.heap p) ≡ some a
    → (0 < count a wakes) ⊎ (count p (P.items s.sleepers) ≤ count p (P.items s'.sleepers))

asleep_elsewhere :
    (h : ℕ → Option Thread) (addr a p : ℕ)
    → sleep_address (h p) ≡ some a
    → a ≢ addr
    → asleep_at h addr p ≡ true
    → ⊥
asleep_elsewhere h addr a p e n match = at_lem (h p) e match
  where
    at_lem :
        (o : Option Thread)
        → sleep_address o ≡ some a
        → (elim o as (λ x. Bool) [ none ↦ false | some t ↦ sleeps_at addr t.t_sleepaddr ]) ≡ true
        → ⊥
    at_lem none e match = cc
    at_lem (some t) e match = ground (arith, e, match, n)

count-kept :
    (h : ℕ → Option Thread) (addr a p : ℕ) (xs : List ℕ)
    → sleep_address (h p) ≡ some a
    → a ≢ addr
    → count p (kept h addr xs) ≡ count p xs
unfolding kept
count-kept h addr a p [] e n = refl
count-kept h addr a p (x ∷ xs) e n = elim (Bool-cases (asleep_at h addr x)) [
  | inr awake ↦ rw awake (
      omega
        (arith, count-cons p x (kept h addr xs), count-cons p x xs, count-kept h addr a p xs e n))
  | inl match ↦ elim (ℕ_discrete x p) [
    | yes same ↦
        absurd (asleep_elsewhere h addr a p e n (subst (λ y. asleep_at h addr y ≡ true) same match))
    | no other ↦ rw match (ground (arith, count-cons p x xs, count-kept h addr a p xs e n))
  ]
]

module _ {P : Platform} (L : Laws P) where
  loop_Stays :
      (wakes : List ℕ) (s : Sys P) (ready : List ℕ) (n : ℕ) (s' : Sys P)
      → P.q_items s.runqueue ≡ ready
      → spl_raised s.cpu ≡ true
      → IsConsistent s.cpu
      → All (IsLive s.heap) (P.items s.sleepers)
      → length (P.q_items s.runqueue) + length (P.items s.sleepers) ≤ P.q_room s.runqueue
      → scheduler_loop P wakes s ≡ ok (n, s')
      → Stays wakes s s'
  unfolding scheduler_loop
  loop_Stays wakes s (x ∷ xs) n s' e r v a c f =
      let (q, result, _, _) = scheduler_ready L wakes s x xs e in
      let same : s'.sleepers ≡ s.sleepers =
        sym (ap (λ (y : ℕ × Sys P). (y.1).sleepers) (ok_inj (sym result ∙ f))) in
      λ p at h. inr (omega (arith, ap (λ l. count p (P.items l)) same))
  loop_Stays [] s [] n s' e r v a c f =
      let waits : scheduler_loop P [] s ≡ idle =
        rw (scheduler_loop, L.empty_nil s.runqueue e) refl in
      cc (f, waits)
  loop_Stays (addr ∷ wakes) s [] n s' e r v a c f =
      let (d, idled, l, v', _) = idle_cpu s.cpu r v in
      let w = thread_wakeup_lem P L addr (record s { cpu = d }) (rw l r) a c in
      let s1 = record s { cpu = d; sleepers = w.array; runqueue = w.queue } in
      let round = idle_round L addr wakes s s1 d (L.empty_nil s.runqueue e) idled w.result in
      let later =
        loop_Stays wakes s1 (P.q_items w.queue) n s' refl (rw l r) v'
          (kept-IsLive L s.heap addr (P.items s.sleepers) (P.items w.array) w.asleep a)
          (omega (
            arith,
            ap length w.ready,
            ap length w.asleep,
            length-append (P.q_items s.runqueue) (woken s.heap addr (P.items s.sleepers)),
            length-woken-kept s.heap addr (P.items s.sleepers),
            w.q_room,
          ))
          (sym round ∙ f) in
      λ p at h. elim (ℕ_discrete at addr) [
        | yes same ↦ inl (ground (arith, same, count-cons at addr wakes))
        | no other ↦ elim (later p at h) [
          | inl woke ↦ inl (omega (arith, woke, count-cons at addr wakes))
          | inr stays ↦ inr (
              omega (
                arith,
                stays,
                ap (count p) w.asleep,
                count-kept s.heap addr at p (P.items s.sleepers) h other,
              ))
        ]
      ]

  -- Only where no thread is ready does the scheduler idle.
  idle_empty :
      (wakes : List ℕ) (s : Sys P) (ready : List ℕ)
      → P.q_items s.runqueue ≡ ready
      → scheduler_loop P wakes s ≡ idle
      → P.q_items s.runqueue ≡ []
  idle_empty wakes s [] e f = e
  idle_empty wakes s (x ∷ xs) e f =
      let (_, result, _, _) = scheduler_ready L wakes s x xs e in cc (result, f)

  module _ (cur : ℕ) (frame : Frame) (s : Sys P) where
    -- A switch, behind which the sleepers of `s1` sleep on that no interrupt wakes.
    pub Stashed-Stays :
        (wakes : List ℕ) (next : ThreadState) (s1 : Sys P)
        → spl_raised s.cpu ≡ true
        → s.curthread ≡ some cur
        → IsIntact (s.heap cur)
        → stash P next cur (record s { curthread = none }) ≡ ok (0, s1)
        → Stashed P cur frame s1
        → ((mi_switch P wakes next frame s ≡ idle) × (P.q_items s1.runqueue ≡ []))
          ⊎ ((s' : Sys P) × (mi_switch P wakes next frame s ≡ ok s') × Stays wakes s1 s')
    unfolding scheduler
    Stashed-Stays wakes next s1 r c (t, l, m) k v =
        let e = stashed_switch L cur frame s wakes next t s1 r c l m k in
        let lives =
          All-of (IsLive s1.heap) (P.items s1.sleepers)
            (λ p h. let (u, live, _) = v.intact p (omega arith) in (u, live)) in
        let space : length (P.q_items s1.runqueue) + length (P.items s1.sleepers)
            ≤ P.q_room s1.runqueue =
          omega (arith, v.population, v.q_space) in
        let entered : scheduler P wakes s1 ≡ scheduler_loop P wakes s1 = rw v.raised refl in
        elim (scheduler_lem L wakes s1 v.raised v.consistent lives space) [
          | inl waits ↦ inl (
            rw (e, waits) refl,
            idle_empty wakes s1 (P.q_items s1.runqueue) refl (sym entered ∙ waits),
          )
          | inr k' ↦
              let (s', result, inv, same) = switch_lem L cur frame s1 v _ k' in
              let stays =
                loop_Stays wakes s1 (P.q_items s1.runqueue) _ _ refl v.raised v.consistent lives
                  space (sym entered ∙ k'.result) in
              inr (
                s',
                rw (e, k'.result) result,
                λ p a h. elim (stays p a h) [
                  | inl woke ↦ inl woke
                  | inr on ↦ inr (omega (arith, on, ap (λ x. count p (P.items x)) same.list))
                ],
              )
        ]
