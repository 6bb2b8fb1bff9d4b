-- ===== src/Thread/Bootstrap.antt =====
-- `thread_bootstrap` of Projects/OS161/kern/thread/thread.c establishes the invariant.
use windborne.Base.{
  ℕ, ◌≤◌, ◌≡◌, refl, ap, true, some, none, List, [], Option, ok, arith, count, count-cons,
  count-nil, length, Bool-cases, ◌==◌, inl, inr, replicate,
}
use windborne.Spl.Nesting.{IsConsistent}
use windborne.Platform.{Platform}
use windborne.Thread.State.{Thread, Sys, update}
use windborne.Thread.Fork.{
  Memory, new_thread, md_initpcb0, fpt_initialize, create_table, thread_create, thread_bootstrap,
}
use windborne.Thread.Resuming.{update_self}
use windborne.Thread.Invariant.{Inv}

module _ {P : Platform} (m : Memory) (sl z : P.Array) (s : Sys P) (p : ℕ) where
  abbrev me : Thread
  me = record (new_thread "<boot/menu>") { t_pcb = md_initpcb0 s.curkstack }

  abbrev pub booted : List (Option ℕ) → Sys P
  booted table = record s {
    sleepers = sl;
    zombies = z;
    heap = update (update s.heap p (some (new_thread "<boot/menu>"))) p (some me);
    full_process_table = table;
    curthread = some p;
    numthreads = 1;
  }

  pub booted-Inv :
      (table : List (Option ℕ))
      → P.items sl ≡ []
      → P.items z ≡ []
      → P.q_items s.runqueue ≡ []
      → 1 ≤ P.room sl
      → 1 ≤ P.q_room s.runqueue
      → IsConsistent s.cpu
      → Inv P p (booted table)
  booted-Inv table a b c d e k = record {
    running = refl;
    current =
        (me, update_self (update s.heap p (some (new_thread "<boot/menu>"))) p (some me), refl);
    parked = λ q h. absurd (omega (arith, ap (count q) a, ap (count q) c, count-nil q));
    dead = λ q h. absurd (omega (arith, ap (count q) b, count-nil q));
    unique = λ q. ground (
      arith,
      ap (count q) a,
      ap (count q) b,
      ap (count q) c,
      count-nil q,
      count-cons q p (P.q_items s.runqueue),
    );
    population = omega (arith, ap length a, ap length c);
    q_space = e;
    space = d;
    consistent = k;
  }

  pub bootstrap_steps :
      m.thread_at ≡ some p
      → m.has_name ≡ true
      → m.has_table ≡ true
      → (table : List (Option ℕ)) × (thread_bootstrap P (some sl) (some z) m s
          ≡ ok (p, booted table))
  unfolding thread_bootstrap thread_create create_table fpt_initialize
  bootstrap_steps a n h = elim (Bool-cases (s.numprocesses == 0)) [
    | inl first ↦ (
      replicate 128 none,
      rw (a, n, first, h, update_self s.heap p (some (new_thread "<boot/menu>"))) refl,
    )
    | inr more ↦ (
      s.full_process_table,
      rw (a, n, more, update_self s.heap p (some (new_thread "<boot/menu>"))) refl,
    )
  ]

  -- `thread_bootstrap`, with memory for the first thread and for the process table, with empty
  -- arrays that have space for one thread, and with an empty run queue that has such space: it
  -- returns the first thread, which runs, and the invariant holds.
  pub thread_bootstrap-Inv :
      m.thread_at ≡ some p
      → m.has_name ≡ true
      → m.has_table ≡ true
      → P.items sl ≡ []
      → P.items z ≡ []
      → P.q_items s.runqueue ≡ []
      → 1 ≤ P.room sl
      → 1 ≤ P.q_room s.runqueue
      → IsConsistent s.cpu
      → (s' : Sys P) × (thread_bootstrap P (some sl) (some z) m s ≡ ok (p, s')) × Inv P p s'
  thread_bootstrap-Inv a n h b c d e f k =
      let (table, result) = bootstrap_steps a n h in
      (booted table, result, booted-Inv table b c d e f k)
