-- ===== src/Synch/Acquiring.antt =====
-- `lock_acquire` of Projects/OS161/kern/thread/synch.c, and what a sleeper does when it runs again,
-- keep what holds between steps.
use mathlib.Core.Option.{some-injective}
use windborne.Base.{
  ℕ, ◌≡◌, refl, sym, ap, ◌∙◌, subst, inl, inr, ◌⊎◌, true, false, List, some, ok, panic, bad_pointer,
  arith, ok_inj, Bool-cases, Option-cases, >>=-eq-ok, ◌>>=◌,
}
use windborne.Base.Int.{ℤ, pos, ◌≤ℤ◌}
use windborne.Spl.{is_zero}
use windborne.Platform.{Platform, Laws}
use windborne.Thread.Switch.{thread_sleep}
use windborne.Thread.Operations.{at_high}
use windborne.Synch.State.{Lock, Synch, Resting, outside, in_proberen, in_acquire, put}
use windborne.Synch.Semaphores.{raise, lower}
use windborne.Synch.Locks.{acquire_done, acquire_loop, lock_acquire}
use windborne.Synch.Resumption.{rest, go_on}
use windborne.Synch.Ownership.{IsLock}
use windborne.Synch.Mutex.{take_lock}
use windborne.Synch.Waiting.{
  not_owned, free_owner, owner_of, put-KeepsLocks, put-MovesLocks, IsLevel, Sound, Leads, put_each,
  only, objects-Sound, Waits-locks,
}
use windborne.Synch.Sleeping.{sleep-Leads, leave-Sound, raise-Sound, proberen_loop-Leads}

pub not_held : (h : ℤ) → is_zero h ≡ true → h ≡ pos 1 → ⊥
not_held h z e = ground arith

module _ {P : Platform} (L : Laws P) (cur : ℕ) where
  done-Leads :
      (at : ℕ) (spl : ℤ) (l : Lock) (s s' : Synch P)
      → pos 0 ≤ℤ spl
      → Sound cur s
      → s.locks at ≡ some l
      → is_zero l.held ≡ true
      → acquire_done P at spl l s ≡ ok s'
      → Leads s s'
  unfolding acquire_done
  done-Leads at spl l s s' level d here free e =
      let mine = record l { held = pos 1; holder = some cur } in
      let s1 = record s { locks = put s.locks at (some mine) } in
      let result : acquire_done P at spl l s
          ≡ ok (record s1 { sys = lower P spl s.sys; resting = put s.resting cur outside }) =
        rw (acquire_done, d.threads.running) refl in
      subst (Leads s) (ok_inj (sym result ∙ e)) (
        (
          cur,
          leave-Sound L cur spl s1 level (
              objects-Sound cur s s.sems (put s.locks at (some mine)) d d.counts
                (put_each IsLock s.locks at (some mine)
                  (only IsLock mine (record { flag = inr refl; known = λ _ h. cc })) d.flags)
                (λ o. Waits-locks s.sems s.locks at (some mine) o (λ j there held. absurd (
                  not_held l.held free
                    (ap (λ (x : Lock). x.held) (some-injective l j (sym here ∙ there)) ∙ held))))),
        ),
        put-KeepsLocks s at (some mine)
            (λ m p there o _. not_owned l m p free (sym here ∙ there) o),
        λ me r. put-MovesLocks s at (some mine) me (
            inr (
              inl (
                ap (take_lock me) (ap owner_of here ∙ free_owner l free)
                ∙ ap (λ p. some (some p)) (some-injective me cur (sym r ∙ d.threads.running))))),
      )

  acquire_loop-Leads :
      (wakes : List ℕ) (at : ℕ) (spl : ℤ) (s s' : Synch P)
      → pos 0 ≤ℤ spl
      → Sound cur s
      → acquire_loop P wakes at spl s ≡ ok s'
      → Leads s s'
  unfolding acquire_loop
  acquire_loop-Leads wakes at spl s s' level d e = elim (Option-cases (s.locks at)) [
    | inl gone ↦
        let stops : acquire_loop P wakes at spl s ≡ panic bad_pointer =
          rw (acquire_loop, gone) refl in
        cc (e, stops)
    | inr (l, here) ↦ elim (Bool-cases (is_zero l.held)) [
      | inl free ↦
          let ends : acquire_loop P wakes at spl s ≡ acquire_done P at spl l s =
            rw (acquire_loop, here, free) refl in
          done-Leads at spl l s s' level d here free (sym ends ∙ e)
      | inr held ↦
          let sleeps : acquire_loop P wakes at spl s ≡ (
              thread_sleep P wakes at s.sys >>= λ t.
              ok (record s { sys = t; resting = put s.resting cur (in_acquire at spl) })) =
            rw (acquire_loop, here, held, d.threads.running) refl in
          let (t, slept, ends) =
            >>=-eq-ok (thread_sleep P wakes at s.sys)
              (λ t. ok (record s { sys = t; resting = put s.resting cur (in_acquire at spl) }))
              (sym sleeps ∙ e) in
          subst (Leads s) (ok_inj ends) (
            sleep-Leads L cur wakes at (in_acquire at spl) s t d level
              (at, refl, inr (l, here, one l.held (d.flags at l here).flag held)) slept)
    ]
  ]
    where
      one : (h : ℤ) → (h ≡ pos 0) ⊎ (h ≡ pos 1) → is_zero h ≡ false → h ≡ pos 1
      one h c z = ground arith

  pub lock_acquire-Leads :
      (wakes : List ℕ) (at : ℕ) (s s' : Synch P)
      → Sound cur s
      → lock_acquire P wakes at s ≡ ok s'
      → Leads s s'
  unfolding lock_acquire raise
  lock_acquire-Leads wakes at s s' d e =
      let steps : lock_acquire P wakes at s
          ≡ acquire_loop P wakes at (raise P s.sys).0 (record s { sys = at_high L cur s.sys }) =
        rw (lock_acquire, d.threads.running) refl in
      acquire_loop-Leads wakes at (raise P s.sys).0 (record s { sys = at_high L cur s.sys }) s'
        d.threads.consistent.level (raise-Sound L cur s d) (sym steps ∙ e)

  rest-Leads :
      (wakes : List ℕ) (r : Resting) (s s' : Synch P)
      → IsLevel r
      → Sound cur s
      → rest P wakes r s ≡ ok s'
      → Leads s s'
  unfolding rest
  rest-Leads wakes outside s s' level d e =
      subst (Leads s) (ok_inj e) ((cur, d), λ b m p h o n. h, λ me r b. inl refl)
  rest-Leads wakes (in_proberen sem spl) s s' level d e =
      proberen_loop-Leads L cur wakes sem spl s s' level d e
  rest-Leads wakes (in_acquire at spl) s s' level d e =
      acquire_loop-Leads wakes at spl s s' level d e

  pub go_on-Leads :
      (wakes : List ℕ) (s s' : Synch P) → Sound cur s → go_on P wakes s ≡ ok s' → Leads s s'
  unfolding go_on
  go_on-Leads wakes s s' d e =
      let steps : go_on P wakes s ≡ rest P wakes (s.resting cur) s =
        rw (go_on, d.threads.running) refl in
      rest-Leads wakes (s.resting cur) s s' (d.levels cur) d (sym steps ∙ e)
