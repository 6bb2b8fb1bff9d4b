-- ===== src/Thread/Choice.antt =====
-- What `scheduler` of Projects/OS161/kern/thread/scheduler.c returns.
use windborne.Base.{
  ℕ, ◌+◌, ◌*◌, ◌/◌, ◌≤◌, ◌≡◌, refl, ap, ◌∙◌, ◌⊎◌, inl, inr, Bool, true, false, List, [], ◌∷◌,
  Option, Outcome, ok, idle, length, length-append, arith, All, All-of, All-get, count,
  count-append,
}
use windborne.Spl.{Cpu, spl_raised, cpu_idle}
use windborne.Spl.Nesting.{IsConsistent}
use windborne.Platform.{Platform, Laws}
use windborne.Thread.State.{Thread, Sys}
use windborne.Thread.Scheduler.{thread_wakeup, scheduler_loop, scheduler}
use windborne.Thread.Wakeup.{
  IsLive, Woken, woken, kept, thread_wakeup_lem, count-woken-kept, length-woken-kept,
}

not_empty : (b : Bool) → (b ≡ true → ⊥) → b ≡ false
not_empty true h = absurd (h refl)
not_empty false h = refl

pub idle_cpu :
    (c : Cpu)
    → spl_raised c ≡ true
    → IsConsistent c
    → (d : Cpu) × (cpu_idle c ≡ ok d)
      × (d.curspl ≡ c.curspl)
      × IsConsistent d
      × (d.in_interrupt ≡ c.in_interrupt)
unfolding cpu_idle
idle_cpu c r v = (record c { status = c.status / 2 * 2 }, ground arith, refl, ground arith, refl)

module _ {P : Platform} (L : Laws P) where
  -- With a thread ready the scheduler takes the one that has waited longest, and does not idle.
  pub scheduler_ready :
      (wakes : List ℕ) (s : Sys P) (p : ℕ) (ps : List ℕ)
      → P.q_items s.runqueue ≡ p ∷ ps
      → (q : P.Queue) × (scheduler_loop P wakes s ≡ ok (p, record s { runqueue = q }))
        × (P.q_items q ≡ ps)
        × (P.q_room s.runqueue ≤ P.q_room q)
  unfolding scheduler_loop
  scheduler_ready [] s p ps e =
      let (q, taken, rest, room) = L.remhead_cons s.runqueue p ps e in
      (q, rw (scheduler_loop, not_empty _ (L.empty_cons s.runqueue p ps e), taken) refl, rest, room)
  scheduler_ready (a ∷ wakes) s p ps e =
      let (q, taken, rest, room) = L.remhead_cons s.runqueue p ps e in
      (q, rw (scheduler_loop, not_empty _ (L.empty_cons s.runqueue p ps e), taken) refl, rest, room)

  -- The scheduler has taken `next`, after any number of idle rounds.
  pub record Picked (s : Sys P) (o : Outcome (ℕ × Sys P)) : Type 0 where
    pub next : ℕ
    pub cpu : Cpu
    pub array : P.Array
    pub queue : P.Queue
    pub result : o ≡ ok (next, record s { cpu = cpu; sleepers = array; runqueue = queue })
    pub level : cpu.curspl ≡ s.cpu.curspl
    pub consistent : IsConsistent cpu
    pub same :
        (p : ℕ)
        → count p (next ∷ P.q_items queue) + count p (P.items array)
          ≡ count p (P.q_items s.runqueue) + count p (P.items s.sleepers)
    pub asleep : (p : ℕ) → count p (P.items array) ≤ count p (P.items s.sleepers)
    pub size :
        1 + length (P.q_items queue) + length (P.items array)
        ≡ length (P.q_items s.runqueue) + length (P.items s.sleepers)
    pub room : P.room s.sleepers ≤ P.room array
    pub q_room : P.q_room s.runqueue ≤ P.q_room queue

  pick_ready :
      (wakes : List ℕ) (s : Sys P) (p : ℕ) (ps : List ℕ)
      → P.q_items s.runqueue ≡ p ∷ ps
      → IsConsistent s.cpu
      → Picked s (scheduler_loop P wakes s)
  pick_ready wakes s p ps e v =
      let (q, result, rest, room) = scheduler_ready wakes s p ps e in
      record {
        next = p;
        cpu = s.cpu;
        array = s.sleepers;
        queue = q;
        result = result;
        level = refl;
        consistent = v;
        same = λ x. omega (arith, ap (count x) e, ap (λ l. count x (p ∷ l)) rest);
        asleep = λ x. omega arith;
        size = omega (arith, ap length e, ap length rest);
        room = omega arith;
        q_room = room;
      }

  pub idle_round :
      (addr : ℕ) (wakes : List ℕ) (s t : Sys P) (c : Cpu)
      → P.q_empty s.runqueue ≡ true
      → cpu_idle s.cpu ≡ ok c
      → thread_wakeup P addr (record s { cpu = c }) ≡ ok t
      → scheduler_loop P (addr ∷ wakes) s ≡ scheduler_loop P wakes t
  unfolding scheduler_loop
  idle_round addr wakes s t c e i w = rw (scheduler_loop, e, i, w) refl

  -- What is picked after an idle round was there before it.
  pick_later :
      (addr : ℕ) (s : Sys P) (c : Cpu) (o : Outcome (ℕ × Sys P))
      → c.curspl ≡ s.cpu.curspl
      → (w : Woken P
          (record s { cpu = c })
          (kept s.heap addr (P.items s.sleepers))
          (woken s.heap addr (P.items s.sleepers))
          (thread_wakeup P addr (record s { cpu = c })))
      → Picked (record s { cpu = c; sleepers = w.array; runqueue = w.queue }) o
      → Picked s o
  pick_later addr s c o l w k = record {
    next = k.next;
    cpu = k.cpu;
    array = k.array;
    queue = k.queue;
    result = k.result;
    level = k.level ∙ l;
    consistent = k.consistent;
    same = λ x. omega (
      arith,
      k.same x,
      ap (count x) w.ready,
      ap (count x) w.asleep,
      count-append x (P.q_items s.runqueue) (woken s.heap addr (P.items s.sleepers)),
      count-woken-kept s.heap addr x (P.items s.sleepers),
    );
    asleep = λ x. omega (
      arith,
      k.asleep x,
      ap (count x) w.asleep,
      count-woken-kept s.heap addr x (P.items s.sleepers),
    );
    size = omega (
      arith,
      k.size,
      ap length w.ready,
      ap length w.asleep,
      length-append (P.q_items s.runqueue) (woken s.heap addr (P.items s.sleepers)),
      length-woken-kept s.heap addr (P.items s.sleepers),
    );
    room = omega (arith, k.room, w.room);
    q_room = omega (arith, k.q_room, w.q_room);
  }

  -- The kept sleepers are among the sleepers.
  pub kept-IsLive :
      (h : ℕ → Option Thread) (addr : ℕ) (xs : List ℕ) (ys : List ℕ)
      → ys ≡ kept h addr xs
      → All (IsLive h) xs
      → All (IsLive h) ys
  kept-IsLive h addr xs ys e a =
      All-of (IsLive h) ys λ p c.
        All-get (IsLive h) p xs (omega (arith, ap (count p) e, count-woken-kept h addr p xs)) a

  choose :
      (wakes : List ℕ) (s : Sys P) (ready : List ℕ)
      → P.q_items s.runqueue ≡ ready
      → spl_raised s.cpu ≡ true
      → IsConsistent s.cpu
      → All (IsLive s.heap) (P.items s.sleepers)
      → length (P.q_items s.runqueue) + length (P.items s.sleepers) ≤ P.q_room s.runqueue
      → (scheduler_loop P wakes s ≡ idle) ⊎ Picked s (scheduler_loop P wakes s)
  unfolding scheduler_loop
  choose wakes s (p ∷ ps) e r v a c = inr (pick_ready wakes s p ps e v)
  choose [] s [] e r v a c = inl (rw (scheduler_loop, L.empty_nil s.runqueue e) refl)
  choose (addr ∷ wakes) s [] e r v a c =
      let (d, idled, l, v', _) = idle_cpu s.cpu r v in
      let w = thread_wakeup_lem P L addr (record s { cpu = d }) (rw l r) a c in
      let s' = record s { cpu = d; sleepers = w.array; runqueue = w.queue } in
      let round = idle_round addr wakes s s' d (L.empty_nil s.runqueue e) idled w.result in
      let sizes = length-append (P.q_items s.runqueue) (woken s.heap addr (P.items s.sleepers)) in
      elim (choose wakes s' (P.q_items w.queue) refl (rw l r) v'
        (kept-IsLive s.heap addr (P.items s.sleepers) (P.items w.array) w.asleep a)
        (omega (
          arith,
          ap length w.ready,
          ap length w.asleep,
          sizes,
          length-woken-kept s.heap addr (P.items s.sleepers),
          w.q_room,
        ))) [
          | inl waits ↦ inl (round ∙ waits)
          | inr k ↦ inr (rw round (pick_later addr s d _ l w k))
        ]

  -- `scheduler`, called at a raised level that agrees with the enable bit, with the sleepers
  -- allocated and with space on the run queue for all of them, never panics: it waits for an
  -- interrupt, or it has taken a thread. The thread it takes and those left on the two lists are,
  -- with multiplicity, those that were there, and nobody has fallen asleep.
  pub scheduler_lem :
      (wakes : List ℕ) (s : Sys P)
      → spl_raised s.cpu ≡ true
      → IsConsistent s.cpu
      → All (IsLive s.heap) (P.items s.sleepers)
      → length (P.q_items s.runqueue) + length (P.items s.sleepers) ≤ P.q_room s.runqueue
      → (scheduler P wakes s ≡ idle) ⊎ Picked s (scheduler P wakes s)
  unfolding scheduler
  scheduler_lem wakes s r v a c = rw r (choose wakes s (P.q_items s.runqueue) refl r v a c)
