-- ===== src/Synch/Falling.antt =====
-- A sleep in one of the loops of Projects/OS161/kern/thread/synch.c.
use windborne.Base.{
  [], ℕ, ◌≡◌, refl, ◌∙◌, sym, ◌⊎◌, inl, inr, true, List, some, Outcome, ok, idle, arith, ◌>>=◌, ◌+◌,
  ◌<◌, ◌≢◌, ◌∷◌, subst, ok_inj, count, count-cons, count-cons_self,
}
use windborne.Spl.{Cpu, is_zero, spl_raised, splx, splhigh}
use windborne.Platform.{Platform, Laws}
use windborne.Thread.State.{Sys}
use windborne.Thread.Switch.{thread_sleep}
use windborne.Thread.Invariant.{Inv}
use windborne.Thread.Resuming.{sleep_address}
use windborne.Thread.Operations.{thread_sleep-FallsAsleep, thread_sleep-Stays}
use windborne.Synch.State.{Synch, Resting, put}

-- The caller has gone to sleep at `addr` in a loop: the processor idles, as nobody was ready, or a
-- thread runs, the
-- invariant of the thread system holds, and the caller is to go on in the loop. Unless an interrupt
-- has woken the sleepers at `addr` meanwhile, the caller is one of them, and another thread runs.
abbrev pub Sleeps : {P : Platform} → ℕ → List ℕ → ℕ → Resting → Synch P → Outcome (Synch P) → Type 0
Sleeps {P} cur wakes addr r s o =
    ((o ≡ idle) × (P.q_items s.sys.runqueue ≡ []))
    ⊎ ((nu : ℕ) × (t : Sys P) × (o ≡ ok (record s { sys = t; resting = put s.resting cur r }))
        × Inv P nu t
        × ((0 < count addr wakes)
            ⊎ ((0 < count cur (P.items t.sleepers))
                × (sleep_address (t.heap cur) ≡ some addr)
                × (nu ≢ cur))))

pub in_interrupt-splhigh :
    (n : ℕ) (c : Cpu) → is_zero c.in_interrupt ≡ true → is_zero (splhigh n c).1.in_interrupt ≡ true
unfolding splhigh splx
in_interrupt-splhigh n c h = ground arith

module _ {P : Platform} (L : Laws P) (cur : ℕ) where
  -- A sleep in one of the loops.
  pub sleep_lem :
      (wakes : List ℕ) (addr : ℕ) (r : Resting) (s : Synch P)
      → spl_raised s.sys.cpu ≡ true
      → is_zero s.sys.cpu.in_interrupt ≡ true
      → Inv P cur s.sys
      → Sleeps cur wakes addr r s (
          thread_sleep P wakes addr s.sys >>= λ t.
          ok (record s { sys = t; resting = put s.resting cur r }))
  sleep_lem wakes addr r s raised outer v =
      elim (thread_sleep-FallsAsleep L cur s.sys wakes addr raised outer v) [
        | inl waits ↦ elim (thread_sleep-Stays L cur s.sys wakes addr raised outer v) [
          | inl (_, empty) ↦ inl (rw waits refl, empty)
          | inr (u, result, stays) ↦ cc (result, waits)
        ]
        | inr (nu, t, result, v', asleep) ↦
            elim (thread_sleep-Stays L cur s.sys wakes addr raised outer v) [
              | inl (waits, _) ↦ cc (result, waits)
              | inr (u, result', stays) ↦
                  let same : u ≡ t = ok_inj (sym result' ∙ result) in
                  inr (
                    nu,
                    t,
                    rw result refl,
                    v',
                    elim stays [
                      | inl woke ↦ inl woke
                      | inr on ↦
                          let there = subst (λ x. 0 < count cur (P.items x.sleepers)) same on in
                          inr (there, at_address t there (asleep cur there), other nu t v' there)
                    ],
                  )
            ]
      ]
    where
      at_address :
          (t : Sys P)
          → 0 < count cur (P.items t.sleepers)
          → (sleep_address (t.heap cur) ≡ some addr)
            ⊎ ((0 < count cur (P.items s.sys.sleepers))
                × (sleep_address (t.heap cur) ≡ sleep_address (s.sys.heap cur)))
          → sleep_address (t.heap cur) ≡ some addr
      at_address t there (inl e) = e
      at_address t there (inr (before, e)) =
          absurd
            (omega (arith, before, v.unique cur, count-cons_self cur (P.q_items s.sys.runqueue)))

      other : (nu : ℕ) (t : Sys P) → Inv P nu t → 0 < count cur (P.items t.sleepers) → nu ≢ cur
      other nu t w there e =
          omega (arith, there, w.unique cur, count-cons cur nu (P.q_items t.runqueue), one_more e)
        where
          one_more :
              nu ≡ cur
              → count cur (nu ∷ P.q_items t.runqueue) ≡ 1 + count cur (P.q_items t.runqueue)
          one_more f =
              subst
                (λ x. count cur (x ∷ P.q_items t.runqueue) ≡ 1 + count cur (P.q_items t.runqueue))
                (sym f) (count-cons_self cur (P.q_items t.runqueue))
