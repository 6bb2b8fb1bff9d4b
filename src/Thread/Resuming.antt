-- ===== src/Thread/Resuming.antt =====
-- The end of `mi_switch` in Projects/OS161/kern/thread/thread.c, on the stack of the thread that is
-- switched to.
use windborne.Base.{
  ℕ, ◌+◌, ◌<◌, ◌≡◌, refl, ap, true, List, [], ◌∷◌, Option, none, some, Outcome, ok, ◌>>=◌, ◌∙◌,
  arith, count, count-nil, count-cons, count-cons_self, All-of,
}
use windborne.Base.Int.{pos}
use windborne.Spl.{Cpu, spl_raised, splx, spl0}
use windborne.Spl.Nesting.{IsConsistent, splx-IsConsistent}
use windborne.Platform.{Platform, Laws}
use windborne.Thread.State.{
  Thread, Frame, threadstart, yielding, sleeping, exiting, Sys, Call, update, magic_ok, as_activate,
  run,
}
use windborne.Thread.Switch.{exorcise, activate, finish, mi_threadstart, resume}
use windborne.Thread.Reaping.{IsDead, free_all, free_all_other, exorcise_lem}
use windborne.Thread.Invariant.{Inv, IsFrame}

pub update_other :
    (h : ℕ → Option Thread) (p : ℕ) (o : Option Thread) (q : ℕ) → (p ≡ q → ⊥) → update h p o q ≡ h q
update_other h p o q n = ground arith

pub update_self : (h : ℕ → Option Thread) (p : ℕ) (o : Option Thread) → update h p o p ≡ o
update_self h p o = ground arith

-- The address at which a thread sleeps.
abbrev pub sleep_address : Option Thread → Option ℕ
sleep_address none = none
sleep_address (some t) = t.t_sleepaddr

-- The sleepers sleep on, at the same addresses.
pub record Undisturbed {P : Platform} (s s' : Sys P) : Type 0 where
  pub list : s'.sleepers ≡ s.sleepers
  pub address :
      (p : ℕ)
      → 0 < count p (P.items s.sleepers)
      → sleep_address (s'.heap p) ≡ sleep_address (s.heap p)

-- Thread `cur` runs, from the state `s`.
abbrev pub Resumes : {P : Platform} → ℕ → Sys P → Outcome (Sys P) → Type 0
Resumes {P} cur s o = (s' : Sys P) × (o ≡ ok s') × Inv P cur s' × Undisturbed s s'

module _ {P : Platform} {cur : ℕ} {s : Sys P} (v : Inv P cur s) where
  pub not_cur :
      (p : ℕ)
      → 0
        < count p (P.q_items s.runqueue)
          + count p (P.items s.sleepers)
          + count p (P.items s.zombies)
      → cur ≡ p
      → ⊥
  not_cur p c e = ground (arith, v.unique p, count-cons p cur (P.q_items s.runqueue))

module _ {P : Platform} (L : Laws P) (cur : ℕ) where
  reap-Inv :
      (s : Sys P) (z : P.Array)
      → P.items z ≡ []
      → Inv P cur s
      → Inv P cur (record s { heap = free_all (P.items s.zombies) s.heap; zombies = z })
  reap-Inv s z e v = record {
    running = v.running;
    current =
        rw
          (free_all_other (P.items s.zombies) s.heap cur
            (omega (arith, v.unique cur, count-cons_self cur (P.q_items s.runqueue))))
          v.current;
    parked = λ p c.
        rw
          (free_all_other (P.items s.zombies) s.heap p
            (omega (arith, v.unique p, count-cons p cur (P.q_items s.runqueue))))
          (v.parked p c);
    dead = λ p c. absurd (omega (arith, ap (count p) e, count-nil p));
    unique = λ p. omega (arith, v.unique p, ap (count p) e, count-nil p);
    population = v.population;
    q_space = v.q_space;
    space = v.space;
    consistent = v.consistent;
  }

  -- Calls that are recorded, and the interrupt level, are not the lists' concern.
  pub recorded-Inv :
      (s : Sys P) (c : Cpu) (calls : List Call)
      → IsConsistent c
      → Inv P cur s
      → Inv P cur (record s { cpu = c; calls = calls })
  recorded-Inv s c calls k v = record {
    running = v.running;
    current = v.current;
    parked = v.parked;
    dead = v.dead;
    unique = v.unique;
    population = v.population;
    q_space = v.q_space;
    space = v.space;
    consistent = k;
  }

  -- A store into the running thread's structure.
  pub stored-Inv :
      (s : Sys P) (t : Thread)
      → magic_ok t.t_stack ≡ true
      → Inv P cur s
      → Inv P cur (record s { heap = update s.heap cur (some t) })
  stored-Inv s t m v = record {
    running = v.running;
    current = (t, ground arith, m);
    parked =
        λ p c. rw (update_other s.heap cur (some t) p (not_cur v p (omega arith))) (v.parked p c);
    dead = λ p c. rw (update_other s.heap cur (some t) p (not_cur v p (omega arith))) (v.dead p c);
    unique = v.unique;
    population = v.population;
    q_space = v.q_space;
    space = v.space;
    consistent = v.consistent;
  }

  vmspace_case :
      (s : Sys P) (t : Thread) (o : Option ℕ)
      → s.curthread ≡ some cur
      → s.heap cur ≡ some t
      → t.t_vmspace ≡ o
      → (calls : List Call) × (activate P s ≡ ok (record s { calls = calls }))
  unfolding activate
  vmspace_case s t none e l o = (s.calls, ground arith)
  vmspace_case s t (some a) e l o = (as_activate a ∷ s.calls, ground arith)

  activate_lem :
      (s : Sys P)
      → Inv P cur s
      → (calls : List Call) × (activate P s ≡ ok (record s { calls = calls }))
  activate_lem s v = let (t, l, _) = v.current in vmspace_case s t t.t_vmspace v.running l refl

  finish_lem : (f : Frame) (s : Sys P) → IsFrame f → Inv P cur s → Resumes cur s (finish P f s)
  unfolding finish
  finish_lem (threadstart d1 d2 f) s k v =
      (s, refl, v, record { list = refl; address = λ p c. refl })
  finish_lem (yielding spl) s k v = (
    _,
    refl,
    recorded-Inv s (splx spl s.cpu).1 s.calls (splx-IsConsistent spl s.cpu k).2 v,
    record { list = refl; address = λ p c. refl },
  )
  finish_lem sleeping s k v =
      let (t, l, m) = v.current in
      (
        record s { heap = update s.heap cur (some (record t { t_sleepaddr = none })) },
        ground (arith, v.running),
        stored-Inv s (record t { t_sleepaddr = none }) m v,
        record {
          list = refl;
          address =
              λ p c. ap sleep_address (update_other s.heap cur _ p (not_cur v p (omega arith)));
        },
      )
  finish_lem exiting s k v = absurd k

  -- `exorcise`, then `as_activate`, then the caller of `mi_switch`.
  tail_lem :
      (f : Frame) (s : Sys P)
      → IsFrame f
      → spl_raised s.cpu ≡ true
      → Inv P cur s
      → Resumes cur s (exorcise P s >>= λ s1. activate P s1 >>= finish P f)
  tail_lem f s k r v =
      let (z, reaped, gone) =
        exorcise_lem P L cur s r v.running
          (omega (arith, v.unique cur, count-cons_self cur (P.q_items s.runqueue)))
          (λ p. omega (arith, v.unique p, count-cons p cur (P.q_items s.runqueue)))
          (All-of (λ p. IsDead (s.heap p)) (P.items s.zombies) v.dead) in
      let s1 = record s { heap = free_all (P.items s.zombies) s.heap; zombies = z } in
      let v1 = reap-Inv s z gone v in
      let (calls, activated) = activate_lem s1 v1 in
      let (s2, result, v2, same) =
        finish_lem f (record s1 { calls = calls }) k
          (recorded-Inv s1 s1.cpu calls v1.consistent v1) in
      (
        s2,
        rw (reaped, activated) result,
        v2,
        record {
          list = same.list;
          address = λ p c.
              same.address p c
              ∙ ap sleep_address (
                  free_all_other (P.items s.zombies) s.heap p
                    (omega (arith, v.unique p, count-cons p cur (P.q_items s.runqueue))));
        },
      )

  pub resume_lem :
      (f : Frame) (s : Sys P)
      → IsFrame f
      → spl_raised s.cpu ≡ true
      → Inv P cur s
      → Resumes cur s (resume P f s)
  unfolding resume mi_threadstart spl0
  resume_lem (threadstart d1 d2 f) s k r v =
      let (calls, activated) = activate_lem s v in
      (
        record s { cpu = (splx (pos 0) s.cpu).1; calls = run d1 d2 f ∷ calls },
        rw activated refl,
        recorded-Inv s (splx (pos 0) s.cpu).1 (run d1 d2 f ∷ calls)
            (splx-IsConsistent (pos 0) s.cpu (omega arith)).2 v,
        record { list = refl; address = λ p c. refl },
      )
  resume_lem (yielding spl) s k r v = tail_lem (yielding spl) s k r v
  resume_lem sleeping s k r v = tail_lem sleeping s k r v
  resume_lem exiting s k r v = absurd k
