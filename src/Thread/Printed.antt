-- ===== src/Thread/Printed.antt =====
-- What `print_run_queue` of Projects/OS161/kern/thread/scheduler.c prints.
use windborne.Base.{
  ℕ, zero, suc, ◌+◌, ◌%◌, ◌<◌, ◌≡◌, ◌≢◌, refl, sym, ap, ◌∙◌, ◌==◌, true, false, List, [], ◌∷◌, ◌++◌,
  Option, none, some, ok, length, get_elem?, get_elem?-middle, append_assoc, append-nil, arith,
  length-append, count, count-append, count-cons_self, subst,
}
use mathlib.Core.Option.{some-injective}
use windborne.Spl.{splhigh}
use windborne.Spl.Nesting.{splx-splhigh}
use windborne.Platform.{Platform, Laws}
use windborne.Thread.State.{Thread, Sys}
use windborne.Thread.Wakeup.{IsLive}
use windborne.Thread.Invariant.{Inv}
use windborne.Thread.Printing.{Ring, Line, line, print_loop, print_run_queue, index, Iterates}

-- The lines for threads, numbered from `k`.
abbrev pub lines_of : (ℕ → Option Thread) → ℕ → List ℕ → List Line
lines_of h k [] = []
lines_of h k (p ∷ ps) = elim (h p) [
  | none ↦ lines_of h (k + 1) ps
  | some t ↦ line k t ∷ lines_of h (k + 1) ps
]

lines_of_cons :
    (h : ℕ → Option Thread) (k p : ℕ) (ps : List ℕ) (t : Thread)
    → h p ≡ some t
    → lines_of h k (p ∷ ps) ≡ line k t ∷ lines_of h (k + 1) ps
lines_of_cons h k p ps t e = rw (lines_of, e) refl

differ_lem : (a b : ℕ) → a ≢ b → (a == b) ≡ false
differ_lem a b h = ground arith

same_lem : (a b : ℕ) → a ≡ b → (a == b) ≡ true
same_lem a b h = ground arith

module _ {P : Platform} (R : Ring P) (s : Sys P) (r : Iterates P R s.runqueue)
    (live : (p : ℕ) → 0 < count p (P.q_items s.runqueue) → IsLive s.heap p) where
  print_loop_lem :
      (fuel k : ℕ) (xs ys : List ℕ)
      → P.q_items s.runqueue ≡ xs ++ ys
      → length xs ≡ k
      → length ys < fuel
      → print_loop P R fuel (index P R s.runqueue k) k s ≡ ok (lines_of s.heap k ys)
  unfolding print_loop
  print_loop_lem zero k xs ys e n f = absurd (omega (arith, f))
  print_loop_lem (suc fuel) k xs [] e n f =
      let whole : k ≡ length (P.q_items s.runqueue) =
        omega (arith, n, ap length e, ap length (append-nil xs)) in
      let last = ap (index P R s.runqueue) whole ∙ r.at_end in
      rw (print_loop, same_lem _ _ last) refl
  print_loop_lem (suc fuel) k xs (y ∷ ys) e n f =
      let inside : k < length (P.q_items s.runqueue) =
        omega (arith, n, ap length e, length-append xs (y ∷ ys)) in
      let here : R.q_getguy s.runqueue (index P R s.runqueue k) ≡ y =
        some-injective _ y
          (sym (r.guy k inside) ∙ ap (λ l. get_elem? l k) e ∙ get_elem?-middle xs ys y k n) in
      let (t, there) =
        live y (omega (arith, ap (count y) e, count-append y xs (y ∷ ys), count-cons_self y ys)) in
      let one_more : suc k ≡ k + 1 = omega arith in
      let after : ℕ = (index P R s.runqueue k + 1) % R.q_getsize s.runqueue in
      let rest : print_loop P R fuel after (k + 1) s ≡ ok (lines_of s.heap (k + 1) ys) =
        subst (λ x. print_loop P R fuel after x s ≡ ok (lines_of s.heap x ys)) one_more
          (print_loop_lem fuel (suc k) (xs ++ y ∷ []) ys (e ∙ sym (append_assoc xs (y ∷ []) ys))
            (omega (arith, n, length-append xs (y ∷ []))) (omega (arith, f))) in
      let result : print_loop P R (suc fuel) (index P R s.runqueue k) k s
          ≡ ok (line k t ∷ lines_of s.heap (k + 1) ys) =
        rw (print_loop, differ_lem _ _ (r.before k inside), here, there, rest) refl in
      result ∙ ap ok (sym (lines_of_cons s.heap k y ys t there))

-- From the invariant, with a queue over which the loop goes as its header says, and with more fuel
-- than threads are ready: `print_run_queue` ends, and prints one line for each thread on the run
-- queue, from the one that has waited longest, numbered from 0, with its name and the address on
-- which it slept. Nothing has changed, the interrupt level included.
pub print_run_queue_lem :
    {P : Platform} (L : Laws P) (R : Ring P) (cur fuel : ℕ) (s : Sys P)
    → Inv P cur s
    → Iterates P R s.runqueue
    → length (P.q_items s.runqueue) < fuel
    → print_run_queue P R fuel s ≡ ok (lines_of s.heap 0 (P.q_items s.runqueue), s)
unfolding print_run_queue splhigh
print_run_queue_lem {P} L R cur fuel s v r f =
    let high = record s { cpu = (splhigh P.spl_high s.cpu).1 } in
    let printed =
      print_loop_lem R high r
        (λ p c. let (t, there, _, _) = v.parked p (omega (arith, c)) in (t, there)) fuel 0 []
        (P.q_items s.runqueue) refl refl f in
    let restored = (splx-splhigh P.spl_high s.cpu L.spl_high_pos v.consistent).2 in
    rw printed
      (ap (λ c. ok (lines_of s.heap 0 (P.q_items s.runqueue), record s { cpu = c })) restored)
