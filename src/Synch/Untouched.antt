-- ===== src/Synch/Untouched.antt =====
-- The semaphores that calls into Projects/OS161/kern/thread/synch.c leave as they are.
use windborne.Base.{
  ℕ, ◌≡◌, refl, sym, ap, ◌∙◌, ◌⊎◌, inl, inr, Bool, List, Option, none, some, Outcome, ok, arith,
  ok_inj, ◌>>=◌, >>=-eq-ok, check, deref, String, not,
}
use windborne.Base.Int.{ℤ}
use windborne.Platform.{Platform}
use windborne.Synch.State.{Semaphore, Lock, Synch, put, put_other}
use windborne.Synch.Semaphores.{raise, lower, sem_create, sem_destroy}
use windborne.Synch.Locks.{
  acquire_done, acquire_loop, lock_acquire, lock_do_i_hold, release_held, release_test,
  lock_release, lock_create, same_pointer, lock_destroy,
}
use windborne.Synch.Resumption.{rest}

-- The semaphores are the same.
module _ (P : Platform) where
  pub acquire_loop-sems :
      (wakes : List ℕ) (at : ℕ) (spl : ℤ) (s s' : Synch P)
      → acquire_loop P wakes at spl s ≡ ok s'
      → s'.sems ≡ s.sems
  unfolding acquire_loop acquire_done
  acquire_loop-sems wakes at spl s s' e = ground arith

  pub lock_acquire-sems :
      (wakes : List ℕ) (at : ℕ) (s s' : Synch P)
      → lock_acquire P wakes at s ≡ ok s'
      → s'.sems ≡ s.sems
  unfolding lock_acquire raise
  lock_acquire-sems wakes at s s' e =
      let (cur, _, more) =
        >>=-eq-ok (deref s.sys.curthread)
          (λ cur. acquire_loop P wakes at (raise P s.sys).0 (record s { sys = (raise P s.sys).1 }))
          e in
      acquire_loop-sems wakes at (raise P s.sys).0 (record s { sys = (raise P s.sys).1 }) s' more

  release_test-sems :
      (at : ℕ) (l : Lock) (s s' : Synch P) → release_test P at l s ≡ ok s' → s'.sems ≡ s.sems
  unfolding release_test release_held lock_do_i_hold
  release_test-sems at l s s' e = ground arith

  pub lock_release-sems : (at : ℕ) (s s' : Synch P) → lock_release P at s ≡ ok s' → s'.sems ≡ s.sems
  unfolding lock_release raise
  lock_release-sems at s s' e =
      let high = record s { sys = (raise P s.sys).1 } in
      let finish : Synch P → Outcome (Synch P) =
        λ r. ok (record r { sys = lower P (raise P s.sys).0 r.sys }) in
      let (_, _, more) =
        >>=-eq-ok (check (not (same_pointer s.sys.curthread none)))
          (λ _. deref (s.locks at) >>= λ l. release_test P at l high >>= finish) e in
      let (l, _, rest) =
        >>=-eq-ok (deref (s.locks at)) (λ l. release_test P at l high >>= finish) more in
      let (r, tested, last) = >>=-eq-ok (release_test P at l high) finish rest in
      ap (λ (x : Synch P). x.sems) (sym (ok_inj last)) ∙ release_test-sems at l high r tested

  pub lock_create-sems :
      (at : Option ℕ) (has_name : Bool) (name : String) (ret : Option ℕ) (s s' : Synch P)
      → lock_create P at has_name name s ≡ ok (ret, s')
      → s'.sems ≡ s.sems
  unfolding lock_create
  lock_create-sems at has_name name ret s s' e = ground arith

  pub lock_destroy-sems : (at : ℕ) (s s' : Synch P) → lock_destroy P at s ≡ ok s' → s'.sems ≡ s.sems
  unfolding lock_destroy
  lock_destroy-sems at s s' e = ground arith

  created_sems :
      (p : ℕ) (has_name : Bool) (name : String) (n : ℤ) (ret : Option ℕ) (s s' : Synch P)
      → sem_create P (some p) has_name name n s ≡ ok (ret, s')
      → (s'.sems ≡ s.sems) ⊎ (s'.sems ≡ put s.sems p (some (record { name = name; count = n })))
  unfolding sem_create
  created_sems p has_name name n ret s s' e = ground arith

  pub sem_create-sems :
      (at : Option ℕ) (has_name : Bool) (name : String) (n : ℤ) (ret : Option ℕ) (s s' : Synch P)
      → ((p : ℕ) → at ≡ some p → s.sems p ≡ none)
      → sem_create P at has_name name n s ≡ ok (ret, s')
      → (sem : ℕ) (k : Semaphore) → s.sems sem ≡ some k
      → s'.sems sem ≡ some k
  unfolding sem_create
  sem_create-sems none has_name name n ret s s' fresh e sem k here =
      let same : s'.sems ≡ s.sems = ground arith in ap (λ f. f sem) same ∙ here
  sem_create-sems (some p) has_name name n ret s s' fresh e sem k here =
      elim (created_sems p has_name name n ret s s' e) [
        | inl same ↦ ap (λ f. f sem) same ∙ here
        | inr stored ↦
            ap (λ f. f sem) stored
            ∙ put_other s.sems p sem (some (record { name = name; count = n }))
                (λ same. cc (fresh p refl, ap s.sems same, here))
            ∙ here
      ]

  pub sem_destroy-sems :
      (a : ℕ) (s s' : Synch P) → sem_destroy P a s ≡ ok s' → s'.sems ≡ put s.sems a none
  unfolding sem_destroy
  sem_destroy-sems a s s' e = ground arith
