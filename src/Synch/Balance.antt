-- ===== src/Synch/Balance.antt =====
-- The count of a semaphore of Projects/OS161/kern/thread/synch.c over a run of the threads.
use windborne.Base.{
  ℕ, ◌+◌, ◌≡◌, ◌≢◌, refl, sym, ap, ◌∙◌, subst, ◌⊎◌, inl, inr, ◌==◌, ◌&&◌, Bool, true, false, List,
  some, ok, panic, assertion, bad_pointer, arith, ok_inj, Bool-cases, Option-cases, ◌>>=◌,
  >>=-eq-ok, ℕ_discrete,
}
use mathlib.Core.Option.{some-injective}
use windborne.Base.Int.{ℤ, pos, negsuc, pos_part, ltb_ℤ, int_inc, int_dec}
use windborne.Spl.{is_zero}
use windborne.Platform.{Platform}
use windborne.Thread.Scheduler.{thread_wakeup}
use windborne.Thread.Switch.{thread_sleep}
use windborne.Synch.State.{
  Semaphore, Synch, Resting, outside, in_proberen, put, put_here, put_other,
}
use windborne.Synch.Semaphores.{raise, lower, proberen_done, proberen_loop, verhogen}
use windborne.Synch.Runs.{is_outside, one_if}

-- What a semaphore's count and the `P` and `V` of a step come to.
abbrev pub Balanced : {P : Platform} → ℕ → ℕ → ℕ → Synch P → Synch P → Type 0
Balanced sem t g s s' =
    (k : Semaphore)
    → s.sems sem ≡ some k
    → (k' : Semaphore) × (s'.sems sem ≡ some k') × (pos_part k'.count + t ≡ pos_part k.count + g)

pub same-Balanced :
    {P : Platform} (sem : ℕ) (s s' : Synch P) → s'.sems ≡ s.sems → Balanced sem 0 0 s s'
same-Balanced sem s s' e k here = (k, ap (λ f. f sem) e ∙ here, refl)

-- A store to one semaphore.
put-Balanced :
    {P : Platform} (sem a t g : ℕ) (j : Semaphore) (c : ℤ) (s s' : Synch P)
    → s.sems a ≡ some j
    → s'.sems ≡ put s.sems a (some (record j { count = c }))
    → (a ≡ sem → pos_part c + t ≡ pos_part j.count + g)
    → (a ≢ sem → t ≡ g)
    → Balanced sem t g s s'
put-Balanced sem a t g j c s s' there e hit miss k here =
    let stored = some (record j { count = c }) in
    elim (ℕ_discrete a sem) [
      | yes same ↦
          let it : j ≡ k = some-injective j k (sym there ∙ ap s.sems same ∙ here) in
          (
            record j { count = c },
            ap (λ f. f sem) e ∙ ap (put s.sems a stored) (sym same) ∙ put_here s.sems a stored,
            hit same ∙ ap (λ (x : Semaphore). pos_part x.count + g) it,
          )
      | no other ↦ (
        k,
        ap (λ f. f sem) e ∙ put_other s.sems a sem stored other ∙ here,
        ap (λ n. pos_part k.count + n) (miss other),
      )
    ]

hits : (a sem : ℕ) → a ≡ sem → one_if (a == sem) ≡ 1
hits a sem e = ground arith

slept_lem :
    (b : Bool) (r : Resting) (a : ℕ) (spl : ℤ)
    → r ≡ in_proberen a spl
    → 0 ≡ one_if (b && is_outside r)
slept_lem true r a spl e = rw e refl
slept_lem false r a spl e = refl

left_lem : (b : Bool) (r : Resting) → r ≡ outside → one_if (b && is_outside r) ≡ one_if b
left_lem true r e = rw e refl
left_lem false r e = refl

int_dec-pos_part : (c : ℤ) → ltb_ℤ (pos 0) c ≡ true → pos_part (int_dec c) + 1 ≡ pos_part c + 0
int_dec-pos_part (pos n) h = ground arith
int_dec-pos_part (negsuc n) h = ground arith

int_inc-pos_part :
    (c : ℤ) → ltb_ℤ (pos 0) (int_inc c) ≡ true → pos_part (int_inc c) + 0 ≡ pos_part c + 1
int_inc-pos_part (pos n) h = ground arith
int_inc-pos_part (negsuc n) h = ground arith

-- What a call of `P` that comes back has done.
abbrev pub ProberenEnds : {P : Platform} → ℕ → ℕ → ℤ → Synch P → Synch P → Type 0
ProberenEnds cur a spl s s' =
    ((s'.sems ≡ s.sems) × (s'.resting cur ≡ in_proberen a spl))
    ⊎ ((k : Semaphore) × (s.sems a ≡ some k)
        × (ltb_ℤ (pos 0) k.count ≡ true)
        × (s'.sems ≡ put s.sems a (some (record k { count = int_dec k.count })))
        × (s'.resting cur ≡ outside))

module _ (P : Platform) (cur : ℕ) where
  done_ends :
      (a : ℕ) (spl : ℤ) (k : Semaphore) (s s' : Synch P)
      → s.sys.curthread ≡ some cur
      → s.sems a ≡ some k
      → proberen_done P a spl k s ≡ ok s'
      → ProberenEnds cur a spl s s'
  unfolding proberen_done
  done_ends a spl k s s' r here e = elim (Bool-cases (ltb_ℤ (pos 0) k.count)) [
    | inr none_left ↦
        let stops : proberen_done P a spl k s ≡ panic assertion =
          rw (proberen_done, none_left) refl in
        cc (e, stops)
    | inl more ↦
        let less = record k { count = int_dec k.count } in
        let result : proberen_done P a spl k s
            ≡ ok (record s {
              sys = lower P spl s.sys;
              sems = put s.sems a (some less);
              resting = put s.resting cur outside;
            }) =
          rw (proberen_done, more, r) refl in
        subst (ProberenEnds cur a spl s) (ok_inj (sym result ∙ e))
          (inr (k, here, more, refl, put_here s.resting cur outside))
  ]

  pub loop_ends :
      (wakes : List ℕ) (a : ℕ) (spl : ℤ) (s s' : Synch P)
      → s.sys.curthread ≡ some cur
      → proberen_loop P wakes a spl s ≡ ok s'
      → ProberenEnds cur a spl s s'
  unfolding proberen_loop
  loop_ends wakes a spl s s' r e = elim (Option-cases (s.sems a)) [
    | inl gone ↦
        let stops : proberen_loop P wakes a spl s ≡ panic bad_pointer =
          rw (proberen_loop, gone) refl in
        cc (e, stops)
    | inr (k, here) ↦ elim (Bool-cases (is_zero k.count)) [
      | inr positive ↦
          let ends : proberen_loop P wakes a spl s ≡ proberen_done P a spl k s =
            rw (proberen_loop, here, positive) refl in
          done_ends a spl k s s' r here (sym ends ∙ e)
      | inl z ↦
          let sleeps : proberen_loop P wakes a spl s ≡ (
              thread_sleep P wakes a s.sys >>= λ t.
              ok (record s { sys = t; resting = put s.resting cur (in_proberen a spl) })) =
            rw (proberen_loop, here, z, r) refl in
          let (t, slept, ends) =
            >>=-eq-ok (thread_sleep P wakes a s.sys)
              (λ t. ok (record s { sys = t; resting = put s.resting cur (in_proberen a spl) }))
              (sym sleeps ∙ e) in
          subst (ProberenEnds cur a spl s) (ok_inj ends)
            (inl (refl, put_here s.resting cur (in_proberen a spl)))
    ]
  ]

  -- The count goes down where a `P` on the semaphore returns.
  pub ends-Balanced :
      (sem a : ℕ) (spl : ℤ) (s s' : Synch P)
      → ProberenEnds cur a spl s s'
      → Balanced sem (one_if ((a == sem) && is_outside (s'.resting cur))) 0 s s'
  ends-Balanced sem a spl s s' (inl (same, sleeps)) =
      subst (λ n. Balanced sem n 0 s s') (slept_lem (a == sem) (s'.resting cur) a spl sleeps)
        (same-Balanced sem s s' same)
  ends-Balanced sem a spl s s' (inr (k, here, more, stored, out)) =
      subst (λ n. Balanced sem n 0 s s') (sym (left_lem (a == sem) (s'.resting cur) out))
        (put-Balanced sem a (one_if (a == sem)) 0 k (int_dec k.count) s s' here stored
          (λ same. omega (arith, int_dec-pos_part k.count more, hits a sem same))
          (λ other. ground arith))

  pub verhogen-Balanced :
      (sem a : ℕ) (s s' : Synch P)
      → verhogen P a s ≡ ok s'
      → Balanced sem 0 (one_if (a == sem)) s s'
  unfolding verhogen raise
  verhogen-Balanced sem a s s' e = elim (Option-cases (s.sems a)) [
    | inl gone ↦
        let stops : verhogen P a s ≡ panic bad_pointer = rw (verhogen, gone) refl in cc (e, stops)
    | inr (k, here) ↦ elim (Bool-cases (ltb_ℤ (pos 0) (int_inc k.count))) [
      | inr wrapped ↦
          let stops : verhogen P a s ≡ panic assertion = rw (verhogen, here, wrapped) refl in
          cc (e, stops)
      | inl positive ↦
          let counted = some (record k { count = int_inc k.count }) in
          let steps : verhogen P a s ≡ (
              thread_wakeup P a (raise P s.sys).1 >>= λ t.
              ok (record s { sys = lower P (raise P s.sys).0 t; sems = put s.sems a counted })) =
            rw (verhogen, here, positive) refl in
          let (t, _, ends) = >>=-eq-ok (thread_wakeup P a (raise P s.sys).1) _ (sym steps ∙ e) in
          put-Balanced sem a 0 (one_if (a == sem)) k (int_inc k.count) s s' here
            (ap (λ (x : Synch P). x.sems) (sym (ok_inj ends)))
            (λ same. omega (arith, int_inc-pos_part k.count positive, hits a sem same))
            (λ other. ground arith)
    ]
  ]
