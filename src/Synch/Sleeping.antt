-- ===== src/Synch/Sleeping.antt =====
-- `P` and `lock_acquire` of Projects/OS161/kern/thread/synch.c, and the loops behind a sleep, keep
-- what holds between steps.
use windborne.Base.{
  ℕ, ◌≡◌, refl, sym, ap, ◌∙◌, subst, inl, inr, true, List, some, ok, panic, assertion, bad_pointer,
  arith, ok_inj, Bool-cases, Option-cases, >>=-eq-ok, ◌>>=◌,
}
use mathlib.Core.Option.{some-injective}
use windborne.Base.Int.{ℤ, pos, negsuc, ◌≤ℤ◌, ltb_ℤ, int_dec}
use windborne.Spl.{is_zero, spl_raised, splx}
use windborne.Spl.Nesting.{splx-IsConsistent}
use windborne.Platform.{Platform, Laws}
use windborne.Thread.State.{Sys}
use windborne.Thread.Switch.{mi_switch, thread_sleep}
use windborne.Thread.Invariant.{Inv}
use windborne.Thread.Resuming.{recorded-Inv}
use windborne.Thread.Operations.{at_high, high-Inv, thread_sleep-FallsAsleep}
use windborne.Synch.State.{Semaphore, Synch, Resting, outside, in_proberen, put}
use windborne.Synch.Semaphores.{raise, lower, proberen_done, proberen_loop, proberen}
use windborne.Synch.Waiting.{
  Waits, IsLevel, Sound, Leads, put_case, put_each, only, objects-Sound, Waits-sems,
}

module _ {P : Platform} (L : Laws P) (cur : ℕ) where
  sleep_asserts :
      (wakes : List ℕ) (addr : ℕ) (s t : Sys P)
      → Inv P cur s
      → thread_sleep P wakes addr s ≡ ok t
      → (is_zero s.cpu.in_interrupt ≡ true) × (spl_raised s.cpu ≡ true)
  unfolding thread_sleep mi_switch
  sleep_asserts wakes addr s t v e =
      let (u, live, _) = v.current in
      elim (Bool-cases (is_zero s.cpu.in_interrupt)) [
        | inl outer ↦ elim (Bool-cases (spl_raised s.cpu)) [
          | inl raised ↦ (outer, raised)
          | inr low ↦
              let stops : thread_sleep P wakes addr s ≡ panic assertion =
                rw (thread_sleep, outer, v.running, live, mi_switch, low) refl in
              cc (e, stops)
        ]
        | inr inner ↦
            let stops : thread_sleep P wakes addr s ≡ panic assertion =
              rw (thread_sleep, inner) refl in
            cc (e, stops)
      ]

  -- A sleep on something to wait for.
  pub sleep-Leads :
      (wakes : List ℕ) (addr : ℕ) (r : Resting) (s : Synch P) (t : Sys P)
      → Sound cur s
      → IsLevel r
      → Waits s.sems s.locks (some addr)
      → thread_sleep P wakes addr s.sys ≡ ok t
      → Leads s (record s { sys = t; resting = put s.resting cur r })
  sleep-Leads wakes addr r s t d level waits e =
      let (outer, raised) = sleep_asserts wakes addr s.sys t d.threads e in
      elim (thread_sleep-FallsAsleep L cur s.sys wakes addr raised outer d.threads) [
        | inl idles ↦ cc (e, idles)
        | inr (nu, t', result, v, new) ↦
            subst (λ x. Leads s (record s { sys = x; resting = put s.resting cur r }))
              (ok_inj (sym result ∙ e))
              (
                (
                  nu,
                  record {
                    threads = v;
                    counts = d.counts;
                    flags = d.flags;
                    levels = λ p. put_case IsLevel s.resting cur r p (λ _. level) (λ _. d.levels p);
                    asleep = λ p c. elim (new p c) [
                      | inl here ↦ subst (Waits s.sems s.locks) (sym here) waits
                      | inr (there, same) ↦
                          subst (Waits s.sems s.locks) (sym same) (d.asleep p there)
                    ];
                  },
                ),
                λ b m p h o n. h,
                λ me r b. inl refl,
              )
      ]

  -- The end of a loop.
  pub leave-Sound :
      (spl : ℤ) (s : Synch P)
      → pos 0 ≤ℤ spl
      → Sound cur s
      → Sound cur (record s { sys = lower P spl s.sys; resting = put s.resting cur outside })
  unfolding lower
  leave-Sound spl s level d = record {
    threads =
        recorded-Inv L cur s.sys (splx spl s.sys.cpu).1 s.sys.calls
          (splx-IsConsistent spl s.sys.cpu level).2 d.threads;
    counts = d.counts;
    flags = d.flags;
    levels = λ p. put_case IsLevel s.resting cur outside p (λ _. tt) (λ _. d.levels p);
    asleep = d.asleep;
  }

  pub raise-Sound : (s : Synch P) → Sound cur s → Sound cur (record s { sys = at_high L cur s.sys })
  raise-Sound s d = record {
    threads = high-Inv L cur s.sys d.threads;
    counts = d.counts;
    flags = d.flags;
    levels = d.levels;
    asleep = d.asleep;
  }

  less-nonneg : (c : ℤ) → ltb_ℤ (pos 0) c ≡ true → pos 0 ≤ℤ int_dec c
  less-nonneg (pos n) h = ground arith
  less-nonneg (negsuc n) h = ground arith

  done-Leads :
      (sem : ℕ) (spl : ℤ) (k : Semaphore) (s s' : Synch P)
      → pos 0 ≤ℤ spl
      → Sound cur s
      → s.sems sem ≡ some k
      → proberen_done P sem spl k s ≡ ok s'
      → Leads s s'
  unfolding proberen_done
  done-Leads sem spl k s s' level d here e = elim (Bool-cases (ltb_ℤ (pos 0) k.count)) [
    | inr none_left ↦
        let stops : proberen_done P sem spl k s ≡ panic assertion =
          rw (proberen_done, none_left) refl in
        cc (e, stops)
    | inl more ↦
        let less = record k { count = int_dec k.count } in
        let s1 = record s { sems = put s.sems sem (some less) } in
        let result : proberen_done P sem spl k s
            ≡ ok (record s1 { sys = lower P spl s.sys; resting = put s.resting cur outside }) =
          rw (proberen_done, more, d.threads.running) refl in
        subst (Leads s) (ok_inj (sym result ∙ e)) (
          (
            cur,
            leave-Sound spl s1 level (
                objects-Sound cur s (put s.sems sem (some less)) s.locks d
                  (put_each (λ x. pos 0 ≤ℤ x.count) s.sems sem (some less)
                    (only (λ x. pos 0 ≤ℤ x.count) less (less-nonneg k.count more)) d.counts)
                  d.flags
                  (λ o. Waits-sems s.sems s.locks sem (some less) o (λ j there z. absurd (
                    positive k.count more (
                      ap (λ (x : Semaphore). x.count) (some-injective k j (sym here ∙ there))
                      ∙ z))))),
          ),
          λ b m p h o n. h,
          λ me r b. inl refl,
        )
  ]
    where
      positive : (c : ℤ) → ltb_ℤ (pos 0) c ≡ true → c ≡ pos 0 → ⊥
      positive c h z = ground arith

  pub proberen_loop-Leads :
      (wakes : List ℕ) (sem : ℕ) (spl : ℤ) (s s' : Synch P)
      → pos 0 ≤ℤ spl
      → Sound cur s
      → proberen_loop P wakes sem spl s ≡ ok s'
      → Leads s s'
  unfolding proberen_loop
  proberen_loop-Leads wakes sem spl s s' level d e = elim (Option-cases (s.sems sem)) [
    | inl gone ↦
        let stops : proberen_loop P wakes sem spl s ≡ panic bad_pointer =
          rw (proberen_loop, gone) refl in
        cc (e, stops)
    | inr (k, here) ↦ elim (Bool-cases (is_zero k.count)) [
      | inr positive ↦
          let ends : proberen_loop P wakes sem spl s ≡ proberen_done P sem spl k s =
            rw (proberen_loop, here, positive) refl in
          done-Leads sem spl k s s' level d here (sym ends ∙ e)
      | inl z ↦
          let sleeps : proberen_loop P wakes sem spl s ≡ (
              thread_sleep P wakes sem s.sys >>= λ t.
              ok (record s { sys = t; resting = put s.resting cur (in_proberen sem spl) })) =
            rw (proberen_loop, here, z, d.threads.running) refl in
          let (t, slept, ends) =
            >>=-eq-ok (thread_sleep P wakes sem s.sys)
              (λ t. ok (record s { sys = t; resting = put s.resting cur (in_proberen sem spl) }))
              (sym sleeps ∙ e) in
          subst (Leads s) (ok_inj ends) (
            sleep-Leads wakes sem (in_proberen sem spl) s t d level
              (sem, refl, inl (k, here, zero_lem k.count z)) slept)
    ]
  ]
    where
      zero_lem : (c : ℤ) → is_zero c ≡ true → c ≡ pos 0
      zero_lem c h = ground arith

  pub proberen-Leads :
      (wakes : List ℕ) (sem : ℕ) (s s' : Synch P)
      → Sound cur s
      → proberen P wakes sem s ≡ ok s'
      → Leads s s'
  unfolding proberen raise
  proberen-Leads wakes sem s s' d e = elim (Bool-cases (is_zero s.sys.cpu.in_interrupt)) [
    | inr inner ↦
        let stops : proberen P wakes sem s ≡ panic assertion = rw (proberen, inner) refl in
        cc (e, stops)
    | inl outer ↦
        let steps : proberen P wakes sem s
            ≡ proberen_loop P wakes sem (raise P s.sys).0 (record s { sys = at_high L cur s.sys }) =
          rw (proberen, outer) refl in
        proberen_loop-Leads wakes sem (raise P s.sys).0 (record s { sys = at_high L cur s.sys }) s'
          d.threads.consistent.level (raise-Sound s d) (sym steps ∙ e)
  ]
