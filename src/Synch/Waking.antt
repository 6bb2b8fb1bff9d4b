-- ===== src/Synch/Waking.antt =====
-- `V` and `lock_release` of Projects/OS161/kern/thread/synch.c keep what holds between steps.
use mathlib.Core.Option.{some-injective}
use windborne.Base.{
  ℕ, ◌<◌, ◌≡◌, ◌≢◌, refl, sym, ap, ◌∙◌, subst, inl, inr, true, List, [], ◌∷◌, Option, none, some,
  ok, panic, assertion, bad_pointer, arith, ok_inj, Bool-cases, Option-cases, ℕ_discrete, count,
  count-cons, count-nil,
}
use windborne.Base.Int.{ℤ, pos, negsuc, ◌≤ℤ◌, ltb_ℤ, int_inc}
use windborne.Platform.{Platform, Laws}
use windborne.Thread.State.{Thread}
use windborne.Thread.Wakeup.{asleep_at, kept, count-woken-kept}
use windborne.Thread.Invariant.{Inv}
use windborne.Thread.Resuming.{sleep_address}
use windborne.Synch.State.{Semaphore, Lock, Synch, put}
use windborne.Synch.Semaphores.{raise, verhogen}
use windborne.Synch.Locks.{lock_release}
use windborne.Synch.Counting.{verhogen-Posted}
use windborne.Synch.Mutex.{drop_lock, drop_own}
use windborne.Synch.Ownership.{owner, IsLock}
use windborne.Synch.Releasing.{lock_release_lem}
use windborne.Synch.Waiting.{
  owner_of, put-KeepsLocks, put-MovesLocks, Waits, Sound, Leads, put_each, only, Waits-elsewhere,
}

asleep_lem :
    (h : ℕ → Option Thread) (addr p : ℕ) (o : Option Thread)
    → h p ≡ o
    → sleep_address (h p) ≡ some addr
    → asleep_at h addr p ≡ true
asleep_lem h addr p none e a = let never : none ≡ some addr = ap sleep_address (sym e) ∙ a in cc
asleep_lem h addr p (some t) e a =
    let here : t.t_sleepaddr ≡ some addr = ap sleep_address (sym e) ∙ a in ground (arith, e, here)

-- A thread that is kept sleeps elsewhere.
pub kept_elsewhere :
    (h : ℕ → Option Thread) (addr p : ℕ) (ps : List ℕ)
    → 0 < count p (kept h addr ps)
    → sleep_address (h p) ≢ some addr
unfolding kept
kept_elsewhere h addr p [] c e = omega (arith, count-nil p)
kept_elsewhere h addr p (x ∷ ps) c e = elim (Bool-cases (asleep_at h addr x)) [
  | inl match ↦ kept_elsewhere h addr p ps (ground (arith, match, c)) e
  | inr no_match ↦ elim (ℕ_discrete x p) [
    | yes same ↦ cc (asleep_lem h addr p (h p) refl e, ap (asleep_at h addr) same, no_match)
    | no other ↦
        kept_elsewhere h addr p ps (ground (arith, c, no_match, count-cons p x (kept h addr ps))) e
  ]
]

above_zero : (c : ℤ) → ltb_ℤ (pos 0) c ≡ true → pos 1 ≤ℤ c
above_zero (pos n) h = ground arith
above_zero (negsuc n) h = ground arith

module _ {P : Platform} (L : Laws P) (cur : ℕ) where
  -- The sleepers at `addr` are ready, and the semaphores and locks there are others.
  woken-Sound :
      (addr : ℕ) (s : Synch P) (a : P.Array) (q : P.Queue) (sems : ℕ → Option Semaphore)
      (locks : ℕ → Option Lock)
      → Sound cur s
      → Inv P cur (record (s.sys) { sleepers = a; runqueue = q })
      → P.items a ≡ kept s.sys.heap addr (P.items s.sys.sleepers)
      → ((b : ℕ) (k : Semaphore) → sems b ≡ some k → pos 0 ≤ℤ k.count)
      → ((b : ℕ) (l : Lock) → locks b ≡ some l → IsLock l)
      → ((o : Option ℕ) → o ≢ some addr → Waits s.sems s.locks o → Waits sems locks o)
      → Sound cur (record s {
        sys = record (s.sys) { sleepers = a; runqueue = q };
        sems = sems;
        locks = locks;
      })
  woken-Sound addr s a q sems locks d v list counts flags waits = record {
    threads = v;
    counts = counts;
    flags = flags;
    levels = d.levels;
    asleep = λ p c.
        let still = subst (λ ps. 0 < count p ps) list c in
        waits (sleep_address (s.sys.heap p))
          (kept_elsewhere s.sys.heap addr p (P.items s.sys.sleepers) still)
          (d.asleep p
            (omega (arith, still, count-woken-kept s.sys.heap addr p (P.items s.sys.sleepers))));
  }

  pub verhogen-Leads :
      (sem : ℕ) (s s' : Synch P) → Sound cur s → verhogen P sem s ≡ ok s' → Leads s s'
  unfolding verhogen raise
  verhogen-Leads sem s s' d e = elim (Option-cases (s.sems sem)) [
    | inl gone ↦
        let stops : verhogen P sem s ≡ panic bad_pointer = rw (verhogen, gone) refl in cc (e, stops)
    | inr (k, here) ↦ elim (Bool-cases (ltb_ℤ (pos 0) (int_inc k.count))) [
      | inr wrapped ↦
          let stops : verhogen P sem s ≡ panic assertion = rw (verhogen, here, wrapped) refl in
          cc (e, stops)
      | inl positive ↦
          let high = above_zero (int_inc k.count) positive in
          let w = verhogen-Posted L cur sem k s here d.threads high in
          let more = record k { count = int_inc k.count } in
          subst (Leads s) (ok_inj (sym w.result ∙ e)) (
            (
              cur,
              woken-Sound sem s w.array w.queue (put s.sems sem (some more)) s.locks d w.intact
                  w.asleep
                  (put_each (λ x. pos 0 ≤ℤ x.count) s.sems sem (some more)
                    (only (λ x. pos 0 ≤ℤ x.count) more (omega arith)) d.counts)
                  d.flags
                  (λ o free waits. (Waits-elsewhere s.sems s.locks sem o free waits).0 (some more)),
            ),
            λ b m p h o n. h,
            λ me r b. inl refl,
          )
    ]
  ]

  pub lock_release-Leads :
      (at : ℕ) (s s' : Synch P) → Sound cur s → lock_release P at s ≡ ok s' → Leads s s'
  unfolding lock_release raise
  lock_release-Leads at s s' d e = elim (Option-cases (s.locks at)) [
    | inl gone ↦
        let stops : lock_release P at s ≡ panic bad_pointer =
          rw (lock_release, d.threads.running, gone) refl in
        cc (e, stops)
    | inr (l, here) ↦ elim (lock_release_lem L cur at l s here d.threads (d.flags at l here)) [
      | inr (_, same) ↦
          subst (Leads s) (ok_inj (sym same ∙ e)) ((cur, d), λ b m p h o n. h, λ me r b. inl refl)
      | inl (yours, w) ↦ subst (Leads s) (ok_inj (sym w.result ∙ e)) (
        (
          cur,
          woken-Sound at s w.array w.queue s.sems (put s.locks at (some w.after)) d w.intact
              w.asleep d.counts
              (put_each IsLock s.locks at (some w.after) (only IsLock w.after w.flag) d.flags)
              (λ o free waits. (Waits-elsewhere s.sems s.locks at o free waits).1 (some w.after)),
        ),
        put-KeepsLocks s at (some w.after) (λ m p there o n.
            n (
              d.threads.running
              ∙ sym yours
              ∙ ap owner (some-injective l m (sym here ∙ there))
              ∙ o)),
        λ me r. put-MovesLocks s at (some w.after) me (
            inr (
              inr (
                ap (drop_lock me) (
                  ap owner_of here
                  ∙ yours
                  ∙ ap some (some-injective cur me (sym d.threads.running ∙ r)))
                ∙ drop_own me
                ∙ sym w.free))),
      )
    ]
  ]
