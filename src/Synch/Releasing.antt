-- ===== src/Synch/Releasing.antt =====
-- What `lock_release` of Projects/OS161/kern/thread/synch.c does.
use windborne.Base.{
  ℕ, ◌≡◌, ◌≢◌, refl, ap, ◌⊎◌, inl, inr, true, false, [], none, some, Outcome, ok, arith, ◌++◌,
  ◌>>=◌, ◌&&◌, Bool-cases,
}
use windborne.Base.Int.{pos}
use windborne.Spl.{splhigh}
use windborne.Spl.Nesting.{splx-splhigh}
use windborne.Platform.{Platform, Laws}
use windborne.Thread.Scheduler.{thread_wakeup}
use windborne.Thread.Wakeup.{woken, kept, thread_wakeup_lem}
use windborne.Thread.Invariant.{Inv}
use windborne.Thread.Resuming.{recorded-Inv}
use windborne.Thread.Operations.{at_high, high-Inv, high_raised}
use windborne.Thread.Waking.{Inv_lem, Woken-Inv}
use windborne.Synch.State.{Lock, Synch, put}
use windborne.Synch.Semaphores.{raise, lower}
use windborne.Synch.Locks.{
  is_one, same_pointer, lock_do_i_hold, release_held, release_test, lock_release,
}
use windborne.Synch.Ownership.{owner, IsLock, hold_result, owns_lem}

module _ {P : Platform} (L : Laws P) (cur : ℕ) (lock : ℕ) (l : Lock) (s : Synch P)
    (here : s.locks lock ≡ some l) (v : Inv P cur s.sys) where
  -- The state behind a `lock_release` by the owner: the sleepers on the lock are ready.
  pub record Released (o : Outcome (Synch P)) : Type 0 where
    pub array : P.Array
    pub queue : P.Queue
    pub after : Lock
    pub result :
        o
        ≡ ok (record s {
          sys = record (s.sys) { sleepers = array; runqueue = queue };
          locks = put s.locks lock (some after);
        })
    pub free : owner after ≡ none
    pub flag : IsLock after
    pub asleep : P.items array ≡ kept s.sys.heap lock (P.items s.sys.sleepers)
    pub ready :
        P.q_items queue ≡ P.q_items s.sys.runqueue ++ woken s.sys.heap lock (P.items s.sys.sleepers)
    pub intact : Inv P cur (record (s.sys) { sleepers = array; runqueue = queue })

  abbrev high : Synch P
  high = record s { sys = at_high L cur s.sys }

  hold_high :
      lock_do_i_hold P lock high ≡ ok (same_pointer l.holder (some cur) && is_one l.held, high)
  hold_high = hold_result L cur [] lock l high here (high-Inv L cur s.sys v)

  release_steps :
      lock_release P lock s
      ≡ (release_test P lock l high >>= λ r. ok (record r { sys = lower P s.sys.cpu.curspl r.sys }))
  unfolding lock_release raise splhigh
  release_steps = rw (v.running, here) refl

  restored :
      (a : P.Array) (q : P.Queue)
      → lower P s.sys.cpu.curspl (record (high.sys) { sleepers = a; runqueue = q })
        ≡ record (s.sys) { sleepers = a; runqueue = q }
  unfolding lower splhigh
  restored a q =
      ap (λ c. record (s.sys) { cpu = c; sleepers = a; runqueue = q })
        (splx-splhigh P.spl_high s.sys.cpu L.spl_high_pos v.consistent).2

  test_other :
      (same_pointer l.holder (some cur) && is_one l.held) ≡ false
      → release_test P lock l high ≡ ok high
  unfolding release_test
  test_other e = elim (Bool-cases (is_one l.held)) [
    | inl one ↦ rw (release_test, one, hold_high, e) refl
    | inr not_one ↦ rw (release_test, not_one) refl
  ]

  test_mine :
      (a : P.Array) (q : P.Queue)
      → (same_pointer l.holder (some cur) && is_one l.held) ≡ true
      → thread_wakeup P lock high.sys ≡ ok (record (high.sys) { sleepers = a; runqueue = q })
      → release_test P lock l high
        ≡ ok (record s {
          sys = record (high.sys) { sleepers = a; runqueue = q };
          locks = put s.locks lock (some (record l { held = pos 0 }));
        })
  unfolding release_test release_held
  test_mine a q e w = elim (Bool-cases (is_one l.held)) [
    | inl one ↦ rw (release_test, one, hold_high, e, release_held, w) refl
    | inr not_one ↦ absurd (ground arith)
  ]

  release_other :
      (same_pointer l.holder (some cur) && is_one l.held) ≡ false → lock_release P lock s ≡ ok s
  release_other e = rw (release_steps, test_other e, restored s.sys.sleepers s.sys.runqueue) refl

  release_mine :
      (same_pointer l.holder (some cur) && is_one l.held) ≡ true → Released (lock_release P lock s)
  release_mine e =
      let v' = high-Inv L cur s.sys v in
      let space = Inv_lem L cur lock high.sys v' in
      let raised = (high_raised P.spl_high s.sys.cpu L.spl_high_pos).0 in
      let w = thread_wakeup_lem P L lock high.sys raised space.0 space.1 in
      record {
        array = w.array;
        queue = w.queue;
        after = record l { held = pos 0 };
        result =
            rw (release_steps, test_mine w.array w.queue e w.result, restored w.array w.queue) refl;
        free = refl;
        flag = record { flag = inl refl; known = λ f g. cc };
        asleep = w.asleep;
        ready = w.ready;
        intact =
            recorded-Inv L cur (record (high.sys) { sleepers = w.array; runqueue = w.queue })
              s.sys.cpu s.sys.calls v.consistent (Woken-Inv L cur lock high.sys v' w);
      }

  -- `lock_release`, called from the invariant on a lock that is free or has a holder. By the owner,
  -- it frees the lock and makes every thread that sleeps on it ready, in the order of the sleepers
  -- behind the threads that were ready, and the caller goes on at its level with the invariant. By
  -- any other thread, it changes nothing.
  pub lock_release_lem :
      IsLock l
      → ((owner l ≡ some cur) × Released (lock_release P lock s))
        ⊎ ((owner l ≢ some cur) × (lock_release P lock s ≡ ok s))
  lock_release_lem k =
      let answer = owns_lem l.holder l.held cur k.flag in
      elim (Bool-cases (same_pointer l.holder (some cur) && is_one l.held)) [
        | inl yours ↦ inl (answer.0 yours, release_mine yours)
        | inr others ↦ inr (λ o. cc (answer.1 o), release_other others)
      ]
