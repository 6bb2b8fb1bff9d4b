-- ===== src/Synch/Creating.antt =====
-- The creation and destruction of semaphores and locks in Projects/OS161/kern/thread/synch.c keep
-- what holds between steps.
use mathlib.Core.Option.{some-injective}
use windborne.Base.{Fault}
use windborne.Thread.Scheduler.{thread_hassleepers}
use windborne.Thread.Sleepers.{has_elements, thread_hassleepers_lem}
use windborne.Thread.Waking.{Inv_lem}
use windborne.Thread.Operations.{at_high, high_raised}
use windborne.Synch.Lifetimes.{sem_destroy_lem}
use windborne.Synch.Waking.{kept_elsewhere}
use windborne.Synch.Acquiring.{not_held}
use windborne.Base.{
  ℕ, ◌<◌, ◌≡◌, ◌≢◌, refl, sym, ap, ◌∙◌, subst, ◌⊎◌, inl, inr, Bool, true, false, List, [], ◌∷◌,
  Option, none, some, String, ok, panic, assertion, bad_pointer, arith, ok_inj, Bool-cases,
  Option-cases, count, count-nil,
}
use windborne.Base.Int.{ℤ, pos, negsuc, ◌≤ℤ◌, ltb_ℤ}
use windborne.Spl.{is_zero}
use windborne.Platform.{Platform, Laws}
use windborne.Thread.Wakeup.{woken, count-woken-kept}
use windborne.Thread.Resuming.{sleep_address}
use windborne.Synch.State.{Semaphore, Lock, Synch, put}
use windborne.Synch.Semaphores.{raise, sem_create, sem_destroy}
use windborne.Synch.Locks.{lock_create, lock_destroy}
use windborne.Synch.Ownership.{IsLock}
use windborne.Synch.Waiting.{
  not_owned, free_owner, owner_of, put-KeepsLocks, put-MovesLocks, Sound, Leads, put_each, only,
  objects-Sound, Waits-sems, Waits-locks, Waits-elsewhere,
}

module _ {P : Platform} (L : Laws P) (cur : ℕ) where
  pub sem_create-Leads :
      (at : Option ℕ) (has_name : Bool) (name : String) (n : ℤ) (ret : Option ℕ) (s s' : Synch P)
      → Sound cur s
      → ((p : ℕ) → at ≡ some p → s.sems p ≡ none)
      → sem_create P at has_name name n s ≡ ok (ret, s')
      → Leads s s'
  unfolding sem_create
  sem_create-Leads at has_name name n ret s s' d fresh e =
      create_case at has_name (Bool-cases (ltb_ℤ n (pos 0))) fresh e
    where
      nonneg : (c : ℤ) → ltb_ℤ c (pos 0) ≡ false → pos 0 ≤ℤ c
      nonneg (pos m) h = ground arith
      nonneg (negsuc m) h = ground arith

      create_case :
          (o : Option ℕ) (b : Bool)
          → (ltb_ℤ n (pos 0) ≡ true) ⊎ (ltb_ℤ n (pos 0) ≡ false)
          → ((p : ℕ) → o ≡ some p → s.sems p ≡ none)
          → sem_create P o b name n s ≡ ok (ret, s')
          → Leads s s'
      create_case o b (inl negative) f h =
          let stops : sem_create P o b name n s ≡ panic assertion =
            rw (sem_create, negative) refl in
          cc (h, stops)
      create_case none b (inr good) f h =
          let result : sem_create P none b name n s ≡ ok (none, s) = rw (sem_create, good) refl in
          subst (Leads s) (ap (λ x. x.1) (ok_inj (sym result ∙ h)))
            ((cur, d), λ b m p h o n. h, λ me r b. inl refl)
      create_case (some p) false (inr good) f h =
          let result : sem_create P (some p) false name n s ≡ ok (none, s) =
            rw (sem_create, good) refl in
          subst (Leads s) (ap (λ x. x.1) (ok_inj (sym result ∙ h)))
            ((cur, d), λ b m p h o n. h, λ me r b. inl refl)
      create_case (some p) true (inr good) f h =
          let k : Semaphore = record { name = name; count = n } in
          let result : sem_create P (some p) true name n s
              ≡ ok (some p, record s { sems = put s.sems p (some k) }) =
            rw (sem_create, good) refl in
          subst (Leads s) (ap (λ x. x.1) (ok_inj (sym result ∙ h))) (
            (
              cur,
              objects-Sound cur s (put s.sems p (some k)) s.locks d
                  (put_each (λ x. pos 0 ≤ℤ x.count) s.sems p (some k)
                    (only (λ x. pos 0 ≤ℤ x.count) k (nonneg n good)) d.counts)
                  d.flags
                  (λ o. Waits-sems s.sems s.locks p (some k) o (λ j there _. cc (f p refl, there))),
            ),
            λ b m p h o n. h,
            λ me r b. inl refl,
          )

  pub lock_create-Leads :
      (at : Option ℕ) (has_name : Bool) (name : String) (ret : Option ℕ) (s s' : Synch P)
      → Sound cur s
      → ((p : ℕ) → at ≡ some p → s.locks p ≡ none)
      → lock_create P at has_name name s ≡ ok (ret, s')
      → Leads s s'
  unfolding lock_create
  lock_create-Leads none b name ret s s' d fresh e =
      subst (Leads s) (ap (λ x. x.1) (ok_inj e)) ((cur, d), λ b m p h o n. h, λ me r b. inl refl)
  lock_create-Leads (some p) false name ret s s' d fresh e =
      subst (Leads s) (ap (λ x. x.1) (ok_inj e)) ((cur, d), λ b m p h o n. h, λ me r b. inl refl)
  lock_create-Leads (some p) true name ret s s' d fresh e =
      let l : Lock = record { name = name; holder = none; held = pos 0 } in
      subst (Leads s) (ap (λ x. x.1) (ok_inj e)) (
        (
          cur,
          objects-Sound cur s s.sems (put s.locks p (some l)) d d.counts
              (put_each IsLock s.locks p (some l)
                (only IsLock l (record { flag = inl refl; known = λ h _. cc })) d.flags)
              (λ o.
                Waits-locks s.sems s.locks p (some l) o (λ j there _. cc (fresh p refl, there))),
        ),
        put-KeepsLocks s p (some l) (λ m q there _ _. cc (fresh p refl, there)),
        λ me r. put-MovesLocks s p (some l) me (inl (sym (ap owner_of (fresh p refl)))),
      )

  destroy_gone :
      (sem : ℕ) (s : Synch P) (b : Bool)
      → s.sems sem ≡ none
      → thread_hassleepers P sem (at_high L cur s.sys) ≡ ok b
      → (f : Fault) × (sem_destroy P sem s ≡ panic f)
  unfolding sem_destroy raise
  destroy_gone sem s true gone e = (assertion, rw (sem_destroy, e) refl)
  destroy_gone sem s false gone e = (bad_pointer, rw (sem_destroy, e, gone) refl)

  -- Nobody sleeps on a semaphore that is destroyed.
  no_sleeper :
      (sem p : ℕ) (s : Synch P)
      → has_elements (woken s.sys.heap sem (P.items s.sys.sleepers)) ≡ false
      → 0 < count p (P.items s.sys.sleepers)
      → sleep_address (s.sys.heap p) ≢ some sem
  no_sleeper sem p s idle c e =
      let ps = P.items s.sys.sleepers in
      let awake = elements_lem p (woken s.sys.heap sem ps) idle in
      kept_elsewhere s.sys.heap sem p ps
        (omega (arith, c, awake, count-woken-kept s.sys.heap sem p ps)) e
    where
      elements_lem : (q : ℕ) (qs : List ℕ) → has_elements qs ≡ false → count q qs ≡ 0
      elements_lem q [] h = count-nil q
      elements_lem q (x ∷ qs) h = cc

  pub sem_destroy-Leads :
      (sem : ℕ) (s s' : Synch P) → Sound cur s → sem_destroy P sem s ≡ ok s' → Leads s s'
  sem_destroy-Leads sem s s' d e = elim (Option-cases (s.sems sem)) [
    | inl gone ↦
        let high = high_raised P.spl_high s.sys.cpu L.spl_high_pos in
        let asked =
          thread_hassleepers_lem L sem (at_high L cur s.sys) high.0
            (Inv_lem L cur sem s.sys d.threads).0 in
        let (f, stops) = destroy_gone sem s _ gone asked in cc (e, stops)
    | inr (k, here) ↦
        let ends = sem_destroy_lem L cur sem k s here d.threads in
        elim (Bool-cases (has_elements (woken s.sys.heap sem (P.items s.sys.sleepers)))) [
          | inl busy ↦
              let stops : sem_destroy P sem s ≡ panic assertion = rw (ends, busy) refl in
              cc (e, stops)
          | inr idle ↦
              let result : sem_destroy P sem s ≡ ok (record s { sems = put s.sems sem none }) =
                rw (ends, idle) refl in
              subst (Leads s) (ok_inj (sym result ∙ e)) (
                (
                  cur,
                  record {
                    threads = d.threads;
                    counts = put_each (λ x. pos 0 ≤ℤ x.count) s.sems sem none (λ b h. cc) d.counts;
                    flags = d.flags;
                    levels = d.levels;
                    asleep = λ p c.
                        (Waits-elsewhere s.sems s.locks sem (sleep_address (s.sys.heap p))
                            (no_sleeper sem p s idle c) (d.asleep p c)).0
                          none;
                  },
                ),
                λ b m p h o n. h,
                λ me r b. inl refl,
              )
        ]
  ]

  pub lock_destroy-Leads :
      (at : ℕ) (s s' : Synch P) → Sound cur s → lock_destroy P at s ≡ ok s' → Leads s s'
  unfolding lock_destroy
  lock_destroy-Leads at s s' d e = elim (Option-cases (s.locks at)) [
    | inl gone ↦
        let stops : lock_destroy P at s ≡ panic bad_pointer = rw (lock_destroy, gone) refl in
        cc (e, stops)
    | inr (l, here) ↦ elim (Bool-cases (is_zero l.held)) [
      | inr held ↦
          let stops : lock_destroy P at s ≡ panic assertion = rw (lock_destroy, here, held) refl in
          cc (e, stops)
      | inl free ↦
          let result : lock_destroy P at s ≡ ok (record s { locks = put s.locks at none }) =
            rw (lock_destroy, here, free) refl in
          subst (Leads s) (ok_inj (sym result ∙ e)) (
            (
              cur,
              objects-Sound cur s s.sems (put s.locks at none) d d.counts
                  (put_each IsLock s.locks at none (λ b h. cc) d.flags)
                  (λ o. Waits-locks s.sems s.locks at none o (λ j there held. absurd (
                    not_held l.held free
                      (ap (λ (x : Lock). x.held) (some-injective l j (sym here ∙ there)) ∙ held)))),
            ),
            put-KeepsLocks s at none (λ m p there o _. not_owned l m p free (sym here ∙ there) o),
            λ me r. put-MovesLocks s at none me (inl (sym (ap owner_of here ∙ free_owner l free))),
          )
    ]
  ]
