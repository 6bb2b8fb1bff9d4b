-- ===== src/Boot/Dropping.antt =====
-- What `scheduler_killall` of Projects/OS161/kern/thread/scheduler.c does.
use windborne.Base.{
  ℕ, suc, ◌≡◌, ◌≢◌, refl, ◌∙◌, Bool, true, false, List, [], ◌∷◌, Option, none, some, Outcome, ok,
  length, All,
}
use windborne.Spl.{spl_raised}
use windborne.Platform.{Platform, Laws}
use windborne.Thread.State.{Thread, Sys, Call, dropping}
use windborne.Thread.Scheduler.{scheduler_killall_loop, scheduler_killall}
use windborne.Thread.Wakeup.{IsLive}

-- The lines on the threads of a list, the last first, before others.
pub dropped : (ℕ → Option Thread) → List ℕ → List Call → List Call
dropped h [] calls = calls
dropped h (p ∷ ps) calls =
    dropped h ps (elim (h p) [ none ↦ calls | some t ↦ dropping t.t_name ∷ calls ])

-- The run queue is empty, and the lines are printed.
abbrev pub Drops : {P : Platform} → Sys P → List Call → Outcome (Sys P) → Type 0
Drops {P} s calls o =
    (q : P.Queue) × (o ≡ ok (record s { runqueue = q; calls = calls })) × (P.q_items q ≡ [])

not_true : (b : Bool) → b ≢ true → b ≡ false
not_true true n = absurd (n refl)
not_true false n = refl

module _ {P : Platform} (L : Laws P) where
  drop_one :
      (n p : ℕ) (ps : List ℕ) (s : Sys P) (t : Thread) (q : P.Queue)
      → P.q_empty s.runqueue ≡ false
      → P.q_remhead s.runqueue ≡ some (p, q)
      → s.heap p ≡ some t
      → scheduler_killall_loop P (suc n) s
        ≡ scheduler_killall_loop P n
            (record s { runqueue = q; calls = dropping t.t_name ∷ s.calls })
  unfolding scheduler_killall_loop
  drop_one n p ps s t q e r l = rw (scheduler_killall_loop, e, r, l) refl

  killall_loop_lem :
      (ps : List ℕ) (s : Sys P)
      → P.q_items s.runqueue ≡ ps
      → All (IsLive s.heap) ps
      → Drops s (dropped s.heap ps s.calls) (scheduler_killall_loop P (length ps) s)
  unfolding scheduler_killall_loop dropped
  killall_loop_lem [] s e a =
      (s.runqueue, rw (scheduler_killall_loop, L.empty_nil s.runqueue e) refl, e)
  killall_loop_lem (p ∷ ps) s e ((t, live), a) =
      let (q, taken, left, _) = L.remhead_cons s.runqueue p ps e in
      let busy = not_true _ (L.empty_cons s.runqueue p ps e) in
      let s1 = record s { runqueue = q; calls = dropping t.t_name ∷ s.calls } in
      let (q', result, none_left) = killall_loop_lem ps s1 left a in
      (q', drop_one (length ps) p ps s t q busy taken live ∙ rw live result, none_left)

  pub scheduler_killall_lem :
      (s : Sys P)
      → spl_raised s.cpu ≡ true
      → All (IsLive s.heap) (P.q_items s.runqueue)
      → Drops s (dropped s.heap (P.q_items s.runqueue) s.calls) (scheduler_killall P s)
  unfolding scheduler_killall
  scheduler_killall_lem s r a = rw r (killall_loop_lem (P.q_items s.runqueue) s refl a)
