-- ===== src/Synch/Conservation.antt =====
-- The `P` that return against the `V` that are called, on one semaphore of
-- Projects/OS161/kern/thread/synch.c, whatever the threads do.
use windborne.Base.{
  ℕ, ◌+◌, ◌≡◌, refl, sym, ap, ◌∙◌, subst, ◌==◌, ◌&&◌, inl, inr, List, none, some, ok, panic,
  assertion, ok_inj, arith, Bool-cases,
}
use windborne.Base.Int.{ℤ, pos, negsuc, pos_part, ◌≤ℤ◌}
use windborne.Spl.{is_zero}
use windborne.Platform.{Platform, Laws}
use windborne.Thread.Operations.{at_high}
use windborne.Synch.State.{Semaphore, Synch, Resting, outside, in_proberen, in_acquire, put_other}
use windborne.Synch.Semaphores.{raise, proberen_loop, proberen}
use windborne.Synch.Resumption.{rest, go_on}
use windborne.Synch.Steps.{
  Step, probes, posts, acquires, releases, continues, yields, exits, forks, creates_sem,
  creates_lock, destroys_sem, destroys_lock, Reach, here, next,
}
use windborne.Synch.Waiting.{Sound, IsSound}
use windborne.Synch.Progress.{Reach-IsSound}
use windborne.Synch.Runs.{
  label, is_outside, in_loop_of, one_if, returned, resumes, takes, gives, destroys, taken, given,
  destroyed,
}
use windborne.Synch.Balance.{Balanced, same-Balanced, ends-Balanced, loop_ends, verhogen-Balanced}
use windborne.Synch.Untouched.{
  lock_acquire-sems, lock_release-sems, lock_create-sems, lock_destroy-sems, sem_create-sems,
  sem_destroy-sems, acquire_loop-sems,
}

pos-pos_part : (c : ℤ) → pos 0 ≤ℤ c → c ≡ pos (pos_part c)
pos-pos_part (pos n) h = refl
pos-pos_part (negsuc n) h = absurd (omega arith)

module _ {P : Platform} (L : Laws P) (cur sem : ℕ) where
  proberen-Balanced :
      (wakes : List ℕ) (a : ℕ) (s s' : Synch P)
      → Sound cur s
      → proberen P wakes a s ≡ ok s'
      → Balanced sem (one_if ((a == sem) && is_outside (s'.resting cur))) 0 s s'
  unfolding proberen raise
  proberen-Balanced wakes a s s' d e = elim (Bool-cases (is_zero s.sys.cpu.in_interrupt)) [
    | inr inner ↦
        let stops : proberen P wakes a s ≡ panic assertion = rw (proberen, inner) refl in
        cc (e, stops)
    | inl outer ↦
        let high = record s { sys = at_high L cur s.sys } in
        let steps : proberen P wakes a s ≡ proberen_loop P wakes a (raise P s.sys).0 high =
          rw (proberen, outer) refl in
        ends-Balanced P cur sem a (raise P s.sys).0 high s'
          (loop_ends P cur wakes a (raise P s.sys).0 high s' d.threads.running (sym steps ∙ e))
  ]

  rest-Balanced :
      (wakes : List ℕ) (r : Resting) (s s' : Synch P)
      → Sound cur s
      → rest P wakes r s ≡ ok s'
      → Balanced sem (one_if (in_loop_of sem r && is_outside (s'.resting cur))) 0 s s'
  unfolding rest
  rest-Balanced wakes outside s s' d e =
      same-Balanced sem s s' (ap (λ (x : Synch P). x.sems) (sym (ok_inj e)))
  rest-Balanced wakes (in_proberen a spl) s s' d e =
      ends-Balanced P cur sem a spl s s' (loop_ends P cur wakes a spl s s' d.threads.running e)
  rest-Balanced wakes (in_acquire at spl) s s' d e =
      same-Balanced sem s s' (acquire_loop-sems P wakes at spl s s' e)

  go_on-Balanced :
      (wakes : List ℕ) (s s' : Synch P)
      → Sound cur s
      → go_on P wakes s ≡ ok s'
      → Balanced sem (one_if (in_loop_of sem (s.resting cur) && is_outside (s'.resting cur))) 0 s s'
  unfolding go_on
  go_on-Balanced wakes s s' d e =
      let steps : go_on P wakes s ≡ rest P wakes (s.resting cur) s =
        rw (go_on, d.threads.running) refl in
      rest-Balanced wakes (s.resting cur) s s' d (sym steps ∙ e)

  returned_lem :
      (s s' : Synch P) → s.sys.curthread ≡ some cur → returned s s' ≡ is_outside (s'.resting cur)
  returned_lem s s' r = rw r refl

  resumes_lem :
      (s : Synch P) → s.sys.curthread ≡ some cur → resumes sem s ≡ in_loop_of sem (s.resting cur)
  resumes_lem s r = rw r refl

  pub Step-Balanced :
      (s s' : Synch P) (step : Step s s')
      → Sound cur s
      → destroys sem (label step) ≡ 0
      → Balanced sem (takes sem (label step) s s') (gives sem (label step)) s s'
  Step-Balanced s s' (probes wakes a _ e) d z =
      subst (λ b. Balanced sem (one_if ((a == sem) && b)) 0 s s')
        (sym (returned_lem s s' d.threads.running)) (proberen-Balanced wakes a s s' d e)
  Step-Balanced s s' (posts a _ e) d z = verhogen-Balanced P cur sem a s s' e
  Step-Balanced s s' (acquires wakes at _ e) d z =
      same-Balanced sem s s' (lock_acquire-sems P wakes at s s' e)
  Step-Balanced s s' (releases at _ e) d z = same-Balanced sem s s' (lock_release-sems P at s s' e)
  Step-Balanced s s' (continues wakes e) d z =
      subst (λ b. Balanced sem (one_if (resumes sem s && b)) 0 s s')
        (sym (returned_lem s s' d.threads.running))
        (subst (λ b. Balanced sem (one_if (b && is_outside (s'.resting cur))) 0 s s')
          (sym (resumes_lem s d.threads.running)) (go_on-Balanced wakes s s' d e))
  Step-Balanced s s' (yields wakes t _ e same) d z =
      same-Balanced sem s s' (ap (λ (x : Synch P). x.sems) same)
  Step-Balanced s s' (exits wakes t _ room e same) d z =
      same-Balanced sem s s' (ap (λ (x : Synch P). x.sems) same)
  Step-Balanced s s' (forks m name data1 data2 func code ret t _ k e same) d z =
      same-Balanced sem s s' (ap (λ (x : Synch P). x.sems) same)
  Step-Balanced s s' (creates_sem at b name n ret _ fresh e) d z =
      λ k there. (k, sem_create-sems P at b name n ret s s' fresh e sem k there, refl)
  Step-Balanced s s' (creates_lock at b name ret _ fresh e) d z =
      same-Balanced sem s s' (lock_create-sems P at b name ret s s' e)
  Step-Balanced s s' (destroys_sem a _ e) d z = λ k there. (
    k,
    ap (λ f. f sem) (sem_destroy-sems P a s s' e)
        ∙ put_other s.sems a sem none (λ same. ground (arith, z, same))
        ∙ there,
    refl,
  )
  Step-Balanced s s' (destroys_lock at _ e) d z =
      same-Balanced sem s s' (lock_destroy-sems P at s s' e)

module _ {P : Platform} (L : Laws P) (sem : ℕ) where
  Reach-Balanced :
      (s0 s : Synch P) (way : Reach s0 s)
      → IsSound s0
      → destroyed sem way ≡ 0
      → Balanced sem (taken sem way) (given sem way) s0 s
  Reach-Balanced s0 s here start kept = same-Balanced sem s0 s refl
  Reach-Balanced s0 s (next {t} way step) start kept = λ k0 there.
      let (cur, d) = Reach-IsSound L s0 t way start in
      let (k1, before, sum) = Reach-Balanced s0 t way start (omega (arith, kept)) k0 there in
      let (k, now, more) = Step-Balanced L cur sem t s step d (omega (arith, kept)) k1 before in
      (k, now, omega (arith, sum, more))

  -- In every run of the calls of all threads, in any order, from a state that is sound: a semaphore
  -- that is there at first and that no call destroys is there at the end. Its count is then what it
  -- was at first and as many more as the run has calls of `V` on it, less the calls of `P` on it
  -- that have returned, those begun before the run included; it is not negative, and nothing has
  -- wrapped.
  pub semaphore_conservation :
      (s0 s : Synch P) (way : Reach s0 s)
      → IsSound s0
      → (k0 : Semaphore) → s0.sems sem ≡ some k0
      → destroyed sem way ≡ 0
      → (k : Semaphore) × (c0 : ℕ) × (c : ℕ) × (s.sems sem ≡ some k)
        × (k0.count ≡ pos c0)
        × (k.count ≡ pos c)
        × (c + taken sem way ≡ c0 + given sem way)
  semaphore_conservation s0 s way start k0 there kept =
      let (cur0, d0) = start in
      let (cur, d) = Reach-IsSound L s0 s way start in
      let (k, now, sum) = Reach-Balanced s0 s way start kept k0 there in
      (
        k,
        pos_part k0.count,
        pos_part k.count,
        now,
        pos-pos_part k0.count (d0.counts sem k0 there),
        pos-pos_part k.count (d.counts sem k now),
        sum,
      )
