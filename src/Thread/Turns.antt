-- ===== src/Thread/Turns.antt =====
-- The turns that Projects/OS161/kern/thread/scheduler.c gives to threads that yield.
use windborne.Base.{
  ℕ, suc, ◌≡◌, refl, ap, sym, ◌∙◌, subst, inl, inr, List, [], ◌∷◌, ◌++◌, length, Outcome, ok,
  ok_inj, arith, append_assoc, ◌>>=◌,
}
use mathlib.Core.Option.{some-injective}
use windborne.Platform.{Platform, Laws}
use windborne.Thread.State.{Sys}
use windborne.Thread.Switch.{thread_yield}
use windborne.Thread.Invariant.{Inv}
use windborne.Thread.Operations.{thread_yield-Inv}
use windborne.Thread.RoundRobin.{thread_yield_round_robin}

-- Whichever thread runs yields, once for each element; an element holds the addresses that
-- interrupts wake if the scheduler idles.
unfoldable pub take_turns : (P : Platform) → List (List ℕ) → Sys P → Outcome (Sys P)
take_turns P [] s = ok s
take_turns P (wakes ∷ more) s = thread_yield P wakes s >>= take_turns P more

module _ {P : Platform} (L : Laws P) where
  -- The thread that has yielded to `n`.
  yielded :
      (cur : ℕ) (s : Sys P) (wakes : List ℕ) (n : ℕ) (rest : List ℕ)
      → Inv P cur s
      → P.q_items s.runqueue ≡ n ∷ rest
      → (s' : Sys P) × (thread_yield P wakes s ≡ ok s')
        × Inv P n s'
        × (P.q_items s'.runqueue ≡ rest ++ cur ∷ [])
        × (s'.sleepers ≡ s.sleepers)
  yielded cur s wakes n rest v ready =
      let (s', result, now, queue, asleep, _) =
        thread_yield_round_robin L cur s wakes v n (rest ++ cur ∷ [])
          (ap (λ l. l ++ cur ∷ []) ready) in
      elim (thread_yield-Inv L cur s wakes v) [
        | inl waits ↦ cc (result, waits)
        | inr (nu, (t, same, inv)) ↦
            let e : t ≡ s' = ok_inj (sym same ∙ result) in
            let who : nu ≡ n =
              some-injective nu n (sym inv.running ∙ ap (λ (x : Sys P). x.curthread) e ∙ now) in
            (s', result, subst (λ p. Inv P p s') who (subst (Inv P nu) e inv), queue, asleep)
      ]

  -- From the invariant: a thread behind `front` on the run queue runs after as many calls of
  -- `thread_yield` as `front` has threads and one more, whoever makes the calls and whatever
  -- interrupts come. None of the calls idles or panics, the invariant holds behind them, the
  -- threads that had the processor before are now behind all others, in the order in which they
  -- had it, and the sleepers stay.
  pub take_turns_lem :
      (turns : List (List ℕ)) (front : List ℕ) (p : ℕ) (back : List ℕ) (cur : ℕ) (s : Sys P)
      → Inv P cur s
      → P.q_items s.runqueue ≡ front ++ p ∷ back
      → length turns ≡ suc (length front)
      → (s' : Sys P) × (take_turns P turns s ≡ ok s')
        × Inv P p s'
        × (P.q_items s'.runqueue ≡ back ++ cur ∷ front)
        × (s'.sleepers ≡ s.sleepers)
  unfolding take_turns
  take_turns_lem [] front p back cur s v ready e = absurd (omega (arith, e))
  take_turns_lem (wakes ∷ []) [] p back cur s v ready e =
      let (s', result, inv, queue, asleep) = yielded cur s wakes p back v ready in
      (s', rw result refl, inv, queue, asleep)
  take_turns_lem (wakes ∷ w ∷ more) [] p back cur s v ready e = absurd (omega (arith, e))
  take_turns_lem (wakes ∷ more) (n ∷ front) p back cur s v ready e =
      let (s1, result, inv, queue, asleep) = yielded cur s wakes n (front ++ p ∷ back) v ready in
      let (s', rest, last, order, still) =
        take_turns_lem more front p (back ++ cur ∷ []) n s1 inv
          (queue ∙ append_assoc front (p ∷ back) (cur ∷ [])) (omega (arith, e)) in
      (s', rw result rest, last, order ∙ append_assoc back (cur ∷ []) (n ∷ front), still ∙ asleep)
