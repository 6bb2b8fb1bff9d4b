-- ===== src/Thread/Switching.antt =====
-- `mi_switch` of Projects/OS161/kern/thread/thread.c from one thread to the next.
use windborne.Base.{
  ℕ, ◌+◌, ◌≤◌, ◌<◌, ◌≡◌, refl, sym, ap, subst, ◌∙◌, true, ◌∷◌, Option, some, Outcome, arith, length,
  count, count-cons, count-cons_self, ℕ_discrete,
}
use windborne.Base.Int.{ℤ}
use windborne.Spl.{Cpu, spl_raised}
use windborne.Spl.Nesting.{IsConsistent}
use windborne.Platform.{Platform, Laws}
use windborne.Thread.State.{Thread, Frame, Sys, update}
use windborne.Thread.Wakeup.{IsLive}
use windborne.Thread.Choice.{Picked}
use windborne.Thread.Reaping.{IsDead}
use windborne.Thread.Switch.{md_switch, resume}
use windborne.Thread.Invariant.{Inv, IsFrame, IsIntact, IsParked}
use windborne.Thread.Resuming.{resume_lem, update_other, update_self, sleep_address, Resumes}

-- No thread runs: `cur` has been put on its list, and is left in `frame`.
pub record Stashed (P : Platform) (cur : ℕ) (frame : Frame) (s : Sys P) : Type 0 where
  pub old : IsLive s.heap cur
  pub intact :
      (p : ℕ)
      → 0 < count p (P.q_items s.runqueue) + count p (P.items s.sleepers)
      → IsIntact (s.heap p)
  pub parked :
      (p : ℕ)
      → 0 < count p (P.q_items s.runqueue) + count p (P.items s.sleepers)
      → (cur ≡ p → ⊥)
      → IsParked (s.heap p)
  pub resumable :
      0 < count cur (P.q_items s.runqueue) + count cur (P.items s.sleepers) → IsFrame frame
  pub dead : (p : ℕ) → 0 < count p (P.items s.zombies) → IsDead (s.heap p)
  pub unique :
      (p : ℕ)
      → count p (P.q_items s.runqueue) + count p (P.items s.sleepers) + count p (P.items s.zombies)
        ≤ 1
  pub population : s.numthreads ≡ length (P.q_items s.runqueue) + length (P.items s.sleepers)
  pub q_space : s.numthreads ≤ P.q_room s.runqueue
  pub space : s.numthreads ≤ P.room s.sleepers
  pub consistent : IsConsistent s.cpu
  pub raised : spl_raised s.cpu ≡ true

in_interrupt-IsConsistent :
    (c : Cpu) (i : ℤ) → IsConsistent c → IsConsistent (record c { in_interrupt = i })
in_interrupt-IsConsistent c i v = record {
  level = v.level;
  open_at_zero = v.open_at_zero;
  shut_above = v.shut_above;
}

-- A predicate after a store, at the address that was stored to and at any other.
pub store_case :
    (Q : Option Thread → Type 0) (h : ℕ → Option Thread) (a : ℕ) (o : Option Thread) (p : ℕ)
    → (a ≡ p → Q o)
    → ((a ≡ p → ⊥) → Q (h p))
    → Q (update h a o p)
store_case Q h a o p hit miss = elim (ℕ_discrete a p) [
  | yes e ↦ subst (λ q. Q (update h a o q)) e (rw (update_self h a o) (hit e))
  | no n ↦ rw (update_other h a o p n) (miss n)
]

-- The structure of the old thread behind `md_switch`, and the state.
abbrev pub left_in : {P : Platform} → Frame → Thread → Sys P → Thread
left_in frame t s = record t {
  t_pcb = record (t.t_pcb) {
    pcb_kstack = s.curkstack;
    pcb_ininterrupt = s.cpu.in_interrupt;
    pcb_switchstack = frame;
  };
}

abbrev pub handed_over : {P : Platform} → ℕ → Frame → Thread → Thread → Sys P → Sys P
handed_over cur frame t u s = record s {
  heap = update s.heap cur (some (left_in frame t s));
  curkstack = u.t_pcb.pcb_kstack;
  cpu = record (s.cpu) { in_interrupt = u.t_pcb.pcb_ininterrupt };
}

module _ {P : Platform} (old nu : ℕ) (frame : Frame) (s : Sys P) where
  pub md_same : old ≡ nu → md_switch P old nu frame s ≡ resume P frame s
  unfolding md_switch
  md_same e = ground arith

  pub md_other :
      (t u : Thread)
      → s.heap old ≡ some t
      → s.heap nu ≡ some u
      → (old ≡ nu → ⊥)
      → md_switch P old nu frame s ≡ resume P u.t_pcb.pcb_switchstack (handed_over old frame t u s)
  unfolding md_switch
  md_other t u e f n = ground arith

module _ {P : Platform} (L : Laws P) (cur : ℕ) (frame : Frame) (s : Sys P) where
  module _ (v : Stashed P cur frame s) (o : Outcome (ℕ × Sys P)) (k : Picked L s o) where
    -- The state in which `md_switch` finds the new thread.
    abbrev pub picked : Sys P
    picked = record s {
      cpu = k.cpu;
      sleepers = k.array;
      runqueue = k.queue;
      curthread = some k.next;
    }

    was_there :
        (p : ℕ)
        → 0 < count p (k.next ∷ P.q_items k.queue) + count p (P.items k.array)
        → 0 < count p (P.q_items s.runqueue) + count p (P.items s.sleepers)
    was_there p c = omega (arith, k.same p)

    next_there : 0 < count k.next (P.q_items s.runqueue) + count k.next (P.items s.sleepers)
    next_there = was_there k.next (omega (arith, count-cons_self k.next (P.q_items k.queue)))

    not_next :
        (p : ℕ) → 0 < count p (P.q_items k.queue) + count p (P.items k.array) → k.next ≡ p → ⊥
    not_next p c e = ground (arith, k.same p, v.unique p, count-cons p k.next (P.q_items k.queue))

    -- The lists and the counters after the choice, whatever is stored into `cur`'s structure.
    picked-Inv :
        (h : ℕ → Option Thread) (c : Cpu) (stack : ℕ)
        → IsConsistent c
        → IsIntact (h k.next)
        → ((p : ℕ) → 0 < count p (P.q_items k.queue) + count p (P.items k.array) → IsParked (h p))
        → ((p : ℕ) → 0 < count p (P.items s.zombies) → IsDead (h p))
        → Inv P k.next (record picked { heap = h; cpu = c; curkstack = stack })
    picked-Inv h c stack i n q d = record {
      running = refl;
      current = n;
      parked = q;
      dead = d;
      unique = λ p. omega (arith, k.same p, v.unique p);
      population = omega (arith, v.population, k.size);
      q_space = omega (arith, v.q_space, k.q_room);
      space = omega (arith, v.space, k.room);
      consistent = i;
    }

    stays-IsParked :
        (p : ℕ)
        → 0 < count p (P.q_items k.queue) + count p (P.items k.array)
        → (cur ≡ p → ⊥)
        → IsParked (s.heap p)
    stays-IsParked p c =
        v.parked p (was_there p (omega (arith, count-cons p k.next (P.q_items k.queue))))

    old-IsParked :
        (t : Thread)
        → s.heap cur ≡ some t
        → (p : ℕ) → 0 < count p (P.q_items k.queue) + count p (P.items k.array)
        → cur ≡ p
        → IsParked (some (left_in frame t picked))
    old-IsParked t old p c e =
        let there = was_there cur (rw e (omega (arith, count-cons p k.next (P.q_items k.queue)))) in
        (left_in frame t picked, refl, ground (arith, v.intact cur there), v.resumable there)

    old-IsDead :
        (t : Thread)
        → s.heap cur ≡ some t
        → (p : ℕ) → 0 < count p (P.items s.zombies)
        → cur ≡ p
        → IsDead (some (left_in frame t picked))
    old-IsDead t old p c e =
        let there = v.dead cur (rw e c) in
        (left_in frame t picked, refl, ground (arith, there), ground (arith, there))

    raised : spl_raised k.cpu ≡ true
    raised = rw k.level v.raised

    -- The same thread goes on, in the frame that it was about to be left in.
    switch_same : cur ≡ k.next → Resumes k.next picked (md_switch P cur k.next frame picked)
    switch_same e = rw (md_same cur k.next frame picked e) (
        resume_lem L k.next frame picked (v.resumable (rw e next_there)) raised (
          picked-Inv s.heap k.cpu s.curkstack k.consistent (v.intact k.next next_there)
            (λ p c.
              v.parked p (was_there p (omega (arith, count-cons p k.next (P.q_items k.queue))))
                (λ q. not_next p c (sym e ∙ q)))
            v.dead))

    -- The frame is stored into the old thread's structure, and the new thread goes on in its own.
    switch_other : (cur ≡ k.next → ⊥) → Resumes k.next picked (md_switch P cur k.next frame picked)
    switch_other n =
        let (t, old) = v.old in
        let (u, new, magic, frame_ok) = v.parked k.next next_there n in
        let (s', result, inv, same) =
          resume_lem L k.next u.t_pcb.pcb_switchstack (handed_over cur frame t u picked) frame_ok
            raised
            (picked-Inv (update s.heap cur (some (left_in frame t picked)))
              (record (k.cpu) { in_interrupt = u.t_pcb.pcb_ininterrupt }) u.t_pcb.pcb_kstack
              (in_interrupt-IsConsistent k.cpu _ k.consistent)
              (u, update_other s.heap cur _ k.next n ∙ new, magic)
              (λ p c.
                store_case IsParked s.heap cur _ p (old-IsParked t old p c) (stays-IsParked p c))
              (λ p c. store_case IsDead s.heap cur _ p (old-IsDead t old p c) (λ _. v.dead p c))) in
        (
          s',
          md_other cur k.next frame picked t u old new n ∙ result,
          inv,
          record {
            list = same.list;
            address = λ p c.
                same.address p c
                ∙ store_case (λ o. sleep_address o ≡ sleep_address (s.heap p)) s.heap cur _ p
                    (λ e. ap sleep_address (sym old ∙ ap s.heap e)) (λ _. refl);
          },
        )

    -- Either way the invariant holds of the thread that runs.
    pub switch_lem : Resumes k.next picked (md_switch P cur k.next frame picked)
    switch_lem = elim (ℕ_discrete cur k.next) [ yes e ↦ switch_same e | no n ↦ switch_other n ]
