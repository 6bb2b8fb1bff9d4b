-- ===== src/Thread/Sleepers.antt =====
-- What `thread_hassleepers` of Projects/OS161/kern/thread/thread.c answers.
use windborne.Base.{
  ℕ, suc, ◌+◌, ◌≡◌, refl, ap, sym, ◌∙◌, inl, inr, Bool, true, false, List, [], ◌∷◌, ◌++◌, ok, some,
  length, length-append, append_assoc, arith, All, Bool-cases,
}
use windborne.Spl.{spl_raised}
use windborne.Platform.{Platform, Laws}
use windborne.Platform.Indexing.{index_guy}
use windborne.Thread.State.{Thread, Sys, sleeps_at}
use windborne.Thread.Scheduler.{hassleepers_loop, thread_hassleepers}
use windborne.Thread.Wakeup.{IsLive, woken, cons_kept, cons_woken}

abbrev pub has_elements : List ℕ → Bool
has_elements [] = false
has_elements (x ∷ xs) = true

module _ {P : Platform} (L : Laws P) where
  module _ (n i addr p : ℕ) (t : Thread) (s : Sys P) (guy : P.array_getguy s.sleepers i ≡ p)
      (live : s.heap p ≡ some t) where
    step_here : sleeps_at addr t.t_sleepaddr ≡ true → hassleepers_loop P (suc n) i addr s ≡ ok true
    unfolding hassleepers_loop
    step_here e = ground arith

    step_other :
        sleeps_at addr t.t_sleepaddr ≡ false
        → hassleepers_loop P (suc n) i addr s ≡ hassleepers_loop P n (i + 1) addr s
    unfolding hassleepers_loop
    step_other e = ground arith

  loop_lem :
      (i addr : ℕ) (s : Sys P) (pre ps : List ℕ)
      → P.items s.sleepers ≡ pre ++ ps
      → length pre ≡ i
      → All (IsLive s.heap) ps
      → hassleepers_loop P (length ps) i addr s ≡ ok (has_elements (woken s.heap addr ps))
  unfolding hassleepers_loop woken
  loop_lem i addr s pre [] e l a = refl
  loop_lem i addr s pre (p ∷ ps) e l ((t, live), a) =
      let guy = index_guy L s.sleepers pre ps p i e l in
      elim (Bool-cases (sleeps_at addr t.t_sleepaddr)) [
        | inl here ↦
            step_here (length ps) i addr p t s guy live here
            ∙ ap (λ l. ok (has_elements l)) (sym (cons_woken s.heap addr p t ps live here).1)
        | inr other ↦
            step_other (length ps) i addr p t s guy live other
            ∙ loop_lem (i + 1) addr s (pre ++ p ∷ []) ps (e ∙ sym (append_assoc pre (p ∷ []) ps))
                (omega (arith, length-append pre (p ∷ []))) a
            ∙ ap (λ l. ok (has_elements l)) (sym (cons_kept s.heap addr p t ps live other).1)
      ]

  -- `thread_hassleepers`, called with interrupts off and with the sleepers allocated, answers
  -- whether a thread sleeps at the address.
  pub thread_hassleepers_lem :
      (addr : ℕ) (s : Sys P)
      → spl_raised s.cpu ≡ true
      → All (IsLive s.heap) (P.items s.sleepers)
      → thread_hassleepers P addr s ≡ ok (has_elements (woken s.heap addr (P.items s.sleepers)))
  unfolding thread_hassleepers
  thread_hassleepers_lem addr s r a =
      rw (r, L.getnum s.sleepers) (loop_lem 0 addr s [] (P.items s.sleepers) refl refl a)
