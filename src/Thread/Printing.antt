-- ===== src/Thread/Printing.antt =====
-- `print_run_queue` of Projects/OS161/kern/thread/scheduler.c.
use windborne.Base.{
  ℕ, zero, suc, ◌+◌, ◌%◌, ◌<◌, ◌≡◌, ◌≢◌, ◌==◌, true, false, List, [], ◌∷◌, Option, some, String,
  Outcome, ok, out_of_fuel, deref, ◌>>=◌, length, get_elem?,
}
use windborne.Spl.{splx, splhigh}
use windborne.Platform.{Platform}
use windborne.Thread.State.{Thread, Sys}

-- The calls of kern/include/queue.h "only for debugging".
pub record Ring (P : Platform) : Type 0 where
  pub q_getstart : P.Queue → ℕ
  pub q_getend : P.Queue → ℕ
  pub q_getsize : P.Queue → ℕ
  pub q_getguy : P.Queue → ℕ → ℕ

-- A line of output: a number, the name of a thread and its `t_sleepaddr`.
pub record Line : Type 0 where
  pub number : ℕ
  pub t_name : String
  pub t_sleepaddr : Option ℕ

abbrev pub line : ℕ → Thread → Line
line k t = record { number = k; t_name = t.t_name; t_sleepaddr = t.t_sleepaddr }

module _ (P : Platform) (R : Ring P) where
  -- The rounds of the loop, at index `i` with the number `k`.
  unfoldable pub print_loop : ℕ → ℕ → ℕ → Sys P → Outcome (List Line)
  print_loop zero i k s = out_of_fuel
  print_loop (suc fuel) i k s = elim (i == R.q_getend s.runqueue) [
    | true ↦ ok []
    | false ↦ deref (s.heap (R.q_getguy s.runqueue i)) >>= λ t.
        print_loop fuel ((i + 1) % R.q_getsize s.runqueue) (k + 1) s >>= λ rest.
        ok (line k t ∷ rest)
  ]

  unfoldable pub print_run_queue : ℕ → Sys P → Outcome (List Line × Sys P)
  unfolding print_loop splhigh splx
  print_run_queue fuel s = do
    let (spl, c) = splhigh P.spl_high s.cpu
    let s1 = record s { cpu = c }
    lines ← print_loop fuel (R.q_getstart s1.runqueue) 0 s1
    ok (lines, record s1 { cpu = (splx spl s1.cpu).1 })

  -- The index that the loop has after `n` rounds.
  abbrev pub index : P.Queue → ℕ → ℕ
  index q zero = R.q_getstart q
  index q (suc n) = (index q n + 1) % R.q_getsize q

  -- The header says how to iterate over a queue: the loop meets its elements and then its end.
  pub record Iterates (q : P.Queue) : Type 0 where
    pub at_end : index q (length (P.q_items q)) ≡ R.q_getend q
    pub before : (n : ℕ) → n < length (P.q_items q) → index q n ≢ R.q_getend q
    pub guy :
        (n : ℕ)
        → n < length (P.q_items q)
        → get_elem? (P.q_items q) n ≡ some (R.q_getguy q (index q n))
