-- ===== src/Thread/Waking.antt =====
-- The invariant of the thread system across `thread_wakeup` of
-- Projects/OS161/kern/thread/thread.c.
use windborne.Base.{
  ℕ, ◌+◌, ◌≤◌, ◌≡◌, ap, true, All, length, length-append, arith, All-of, count, count-cons,
  count-append,
}
use windborne.Spl.{spl_raised}
use windborne.Platform.{Platform, Laws}
use windborne.Thread.State.{Sys}
use windborne.Thread.Scheduler.{thread_wakeup}
use windborne.Thread.Wakeup.{
  IsLive, Woken, woken, kept, thread_wakeup_lem, count-woken-kept, length-woken-kept,
}
use windborne.Thread.Invariant.{Inv, Runs}

module _ {P : Platform} (L : Laws P) (cur addr : ℕ) (s : Sys P) (v : Inv P cur s) where
  -- The threads are many enough for the space that is there.
  pub Inv_lem :
      All (IsLive s.heap) (P.items s.sleepers)
      × (length (P.q_items s.runqueue) + length (P.items s.sleepers) ≤ P.q_room s.runqueue)
  Inv_lem = (
    All-of (IsLive s.heap) (P.items s.sleepers)
        (λ p h. let (t, live, _, _) = v.parked p (omega arith) in (t, live)),
    omega (arith, v.population, v.q_space),
  )

  pub Woken-Inv :
      (w : Woken P s
        (kept s.heap addr (P.items s.sleepers))
        (woken s.heap addr (P.items s.sleepers))
        (thread_wakeup P addr s))
      → Inv P cur (record s { sleepers = w.array; runqueue = w.queue })
  Woken-Inv w =
      let same : (p : ℕ)
          → count p (P.q_items w.queue) + count p (P.items w.array)
            ≡ count p (P.q_items s.runqueue) + count p (P.items s.sleepers) =
        λ p. omega (
          arith,
          ap (count p) w.ready,
          ap (count p) w.asleep,
          count-append p (P.q_items s.runqueue) (woken s.heap addr (P.items s.sleepers)),
          count-woken-kept s.heap addr p (P.items s.sleepers),
        ) in
      record {
        running = v.running;
        current = v.current;
        parked = λ p c. v.parked p (omega (arith, same p));
        dead = v.dead;
        unique = λ p. omega (
          arith,
          same p,
          v.unique p,
          count-cons p cur (P.q_items s.runqueue),
          count-cons p cur (P.q_items w.queue),
        );
        population = omega (
          arith,
          v.population,
          ap length w.ready,
          ap length w.asleep,
          length-append (P.q_items s.runqueue) (woken s.heap addr (P.items s.sleepers)),
          length-woken-kept s.heap addr (P.items s.sleepers),
        );
        q_space = omega (arith, v.q_space, w.q_room);
        space = omega (arith, v.space, w.room);
        consistent = v.consistent;
      }

  -- `thread_wakeup`, called from the invariant with interrupts off, returns to the thread that
  -- called it, and the invariant holds.
  pub thread_wakeup-Inv : spl_raised s.cpu ≡ true → Runs cur (thread_wakeup P addr s)
  thread_wakeup-Inv r =
      let w = thread_wakeup_lem P L addr s r Inv_lem.0 Inv_lem.1 in
      (record s { sleepers = w.array; runqueue = w.queue }, w.result, Woken-Inv w)
