-- ===== src/Thread/RoundRobin.antt =====
-- The order in which Projects/OS161/kern/thread/scheduler.c lets threads run.
use windborne.Base.{
  ℕ, zero, suc, ◌+◌, ◌≡◌, refl, ap, sym, ℕ_discrete, ◌∙◌, inl, inr, List, [], ◌∷◌, ◌++◌, none, some,
  Outcome, ok, >>=-eq-ok, ◌>>=◌, ◌>>◌, check, arith, All-of, count-cons_self, ◌==◌,
}
use windborne.Spl.{spl_raised, splhigh, spl0}
use windborne.Platform.{Platform, Laws}
use windborne.Thread.State.{
  Thread, Frame, threadstart, yielding, sleeping, exiting, s_ready, Sys, run,
}
use windborne.Thread.Scheduler.{make_runnable, scheduler, scheduler_loop}
use windborne.Thread.Switch.{
  differs, thread_destroy, exorcise_loop, exorcise, activate, finish, mi_threadstart, resume,
  md_switch, stash, mi_switch, thread_yield,
}
use windborne.Thread.Choice.{scheduler_ready, scheduler_lem}
use windborne.Thread.Wakeup.{IsLive}
use windborne.Thread.Invariant.{Inv}
use windborne.Thread.Operations.{high_raised, at_high, high-Inv}
use windborne.Thread.Parking.{ready_Parks, stashed_switch}
use windborne.Thread.Switching.{Stashed, switch_lem, picked, md_same, md_other, handed_over}

-- The lists of live threads, the running thread and the counter are the same.
pub record Same {P : Platform} (s s' : Sys P) : Type 0 where
  pub curthread : s'.curthread ≡ s.curthread
  pub sleepers : s'.sleepers ≡ s.sleepers
  pub runqueue : s'.runqueue ≡ s.runqueue
  pub numthreads : s'.numthreads ≡ s.numthreads

module _ (P : Platform) where
  Same-trans : (s t u : Sys P) → Same s t → Same t u → Same s u
  Same-trans s t u a b = record {
    curthread = b.curthread ∙ a.curthread;
    sleepers = b.sleepers ∙ a.sleepers;
    runqueue = b.runqueue ∙ a.runqueue;
    numthreads = b.numthreads ∙ a.numthreads;
  }

  destroy_Same : (z : ℕ) (s s' : Sys P) → thread_destroy P z s ≡ ok s' → Same s s'
  unfolding thread_destroy
  destroy_Same z s s' e = ground arith

  loop_Same : (n i : ℕ) (s s' : Sys P) → exorcise_loop P n i s ≡ ok s' → Same s s'
  unfolding exorcise_loop
  loop_Same zero i s s' e = ground arith
  loop_Same (suc n) i s s' e =
      let z = P.array_getguy s.zombies i in
      let (_, _, rest) =
        >>=-eq-ok (check (differs z s.curthread))
          (λ _. thread_destroy P z s >>= exorcise_loop P n (i + 1)) e in
      let (t, destroyed, more) =
        >>=-eq-ok (thread_destroy P z s) (exorcise_loop P n (i + 1)) rest in
      Same-trans s t s' (destroy_Same z s t destroyed) (loop_Same n (i + 1) t s' more)

  -- The end of `exorcise`.
  abbrev emptied : Sys P → Outcome (Sys P)
  emptied s =
      check ((P.array_setsize s.zombies 0).0 == 0)
      >> ok (record s { zombies = (P.array_setsize s.zombies 0).1 })

  emptied-Same : (s s' : Sys P) → emptied s ≡ ok s' → Same s s'
  emptied-Same s s' e = ground arith

  exorcise-Same : (s s' : Sys P) → exorcise P s ≡ ok s' → Same s s'
  unfolding exorcise
  exorcise-Same s s' e =
      let n = P.array_getnum s.zombies in
      let (_, _, rest) =
        >>=-eq-ok (check (spl_raised s.cpu)) (λ _. exorcise_loop P n 0 s >>= emptied) e in
      let (t, looped, more) = >>=-eq-ok (exorcise_loop P n 0 s) emptied rest in
      Same-trans s t s' (loop_Same n 0 s t looped) (emptied-Same t s' more)

  activate-Same : (s s' : Sys P) → activate P s ≡ ok s' → Same s s'
  unfolding activate
  activate-Same s s' e = ground arith

  finish-Same : (f : Frame) (s s' : Sys P) → finish P f s ≡ ok s' → Same s s'
  unfolding finish
  finish-Same (threadstart d1 d2 f) s s' e = ground arith
  finish-Same (yielding spl) s s' e = ground arith
  finish-Same sleeping s s' e = ground arith
  finish-Same exiting s s' e = cc

  tail_Same :
      (f : Frame) (s s' : Sys P)
      → (exorcise P s >>= λ s1. activate P s1 >>= finish P f) ≡ ok s'
      → Same s s'
  tail_Same f s s' e =
      let (t, a, rest) = >>=-eq-ok (exorcise P s) (λ s1. activate P s1 >>= finish P f) e in
      let (u, b, more) = >>=-eq-ok (activate P t) (finish P f) rest in
      Same-trans s t s' (exorcise-Same s t a)
        (Same-trans t u s' (activate-Same t u b) (finish-Same f u s' more))

  abbrev started : ℕ → ℕ → ℕ → Sys P → Outcome (Sys P)
  started d1 d2 f s = ok (record s { cpu = (spl0 s.cpu).1; calls = run d1 d2 f ∷ s.calls })

  started-Same : (d1 d2 f : ℕ) (s s' : Sys P) → started d1 d2 f s ≡ ok s' → Same s s'
  started-Same d1 d2 f s s' e = ground arith

  resume-Same : (f : Frame) (s s' : Sys P) → resume P f s ≡ ok s' → Same s s'
  unfolding resume mi_threadstart
  resume-Same (threadstart d1 d2 f) s s' e =
      let (t, a, rest) = >>=-eq-ok (activate P s) (started d1 d2 f) e in
      Same-trans s t s' (activate-Same s t a) (started-Same d1 d2 f t s' rest)
  resume-Same (yielding spl) s s' e = tail_Same (yielding spl) s s' e
  resume-Same sleeping s s' e = tail_Same sleeping s s' e
  resume-Same exiting s s' e = tail_Same exiting s s' e

  -- A switch between two live threads changes neither list.
  switch_Same :
      (old nu : ℕ) (f : Frame) (t u : Thread) (s s' : Sys P)
      → s.heap old ≡ some t
      → s.heap nu ≡ some u
      → md_switch P old nu f s ≡ ok s'
      → Same s s'
  switch_Same old nu f t u s s' l m e = elim (ℕ_discrete old nu) [
    | yes same ↦ resume-Same f s s' (sym (md_same old nu f s same) ∙ e)
    | no other ↦
        let k =
          resume-Same u.t_pcb.pcb_switchstack (handed_over old f t u s) s'
            (sym (md_other old nu f s t u l m other) ∙ e) in
        record {
          curthread = k.curthread;
          sleepers = k.sleepers;
          runqueue = k.runqueue;
          numthreads = k.numthreads;
        }
  ]

  stash_result :
      (cur : ℕ) (s s1 : Sys P)
      → stash P s_ready cur s ≡ ok (0, s1)
      → (s1 ≡ record s { runqueue = (P.q_addtail s.runqueue cur).1 })
        × ((P.q_addtail s.runqueue cur).0 ≡ 0)
  unfolding stash make_runnable
  stash_result cur s s1 e = (ground arith, ground arith)

module _ {P : Platform} (L : Laws P) (cur : ℕ) (frame : Frame) (s : Sys P) (wakes : List ℕ) where
  -- The rest of a switch, the scheduler's choice being known.
  pub rotation :
      (s1 : Sys P) (n : ℕ) (q : P.Queue)
      → mi_switch P wakes s_ready frame s ≡ (
          scheduler P wakes s1 >>= λ r.
          md_switch P cur r.0 frame (record (r.1) { curthread = some r.0 }))
      → Stashed P cur frame s1
      → scheduler_loop P wakes s1 ≡ ok (n, record s1 { runqueue = q })
      → (s' : Sys P) × (mi_switch P wakes s_ready frame s ≡ ok s')
        × (s'.curthread ≡ some n)
        × (s'.runqueue ≡ q)
        × (s'.sleepers ≡ s1.sleepers)
        × (s'.numthreads ≡ s1.numthreads)
  unfolding scheduler
  rotation s1 n q e st chosen =
      let found : scheduler P wakes s1 ≡ ok (n, record s1 { runqueue = q }) = rw st.raised chosen in
      elim (scheduler_lem L wakes s1 st.raised st.consistent
        (All-of (IsLive s1.heap) (P.items s1.sleepers)
          (λ p h. let (u, live, _) = st.intact p (omega arith) in (u, live)))
        (omega (arith, st.population, st.q_space))) [
          | inl waits ↦ cc (found, waits)
          | inr k ↦
              let (s', result, inv, _) = switch_lem L cur frame s1 st _ k in
              let (t, old) = st.old in
              let (u, new, _) =
                st.intact k.next
                  (omega (arith, k.same k.next, count-cons_self k.next (P.q_items k.queue))) in
              let same =
                switch_Same P cur k.next frame t u (picked L cur frame s1 st _ k) s' old new
                  result in
              let agree : ok
                    (k.next, record s1 { cpu = k.cpu; sleepers = k.array; runqueue = k.queue })
                  ≡ ok (n, record s1 { runqueue = q }) =
                sym k.result ∙ found in
              (
                s',
                rw (e, k.result) result,
                same.curthread ∙ ground arith,
                same.runqueue ∙ ground arith,
                same.sleepers ∙ ground arith,
                same.numthreads,
              )
        ]

module _ {P : Platform} (L : Laws P) (cur : ℕ) (s : Sys P) (wakes : List ℕ) where
  yield_lem :
      thread_yield P wakes s ≡ mi_switch P wakes s_ready (yielding s.cpu.curspl) (at_high L cur s)
  unfolding thread_yield splhigh
  yield_lem = refl

  module _ (v : Inv P cur s) (n : ℕ) (rest : List ℕ)
      (ready : P.q_items s.runqueue ++ cur ∷ [] ≡ n ∷ rest) where
    -- What `thread_yield` ends in where a thread is ready.
    abbrev pub Rotates : Type 0
    Rotates =
        (s' : Sys P) × (thread_yield P wakes s ≡ ok s')
        × (s'.curthread ≡ some n)
        × (P.q_items s'.runqueue ≡ rest)
        × (s'.sleepers ≡ s.sleepers)
        × (s'.numthreads ≡ s.numthreads)

    -- From the invariant, `thread_yield` returns in the first of the threads that are ready with the
    -- caller behind them, whatever interrupts come; the others are left on the run queue in their
    -- order, and sleepers and counter stay.
    pub thread_yield_round_robin : Rotates
    thread_yield_round_robin =
        let frame = yielding s.cpu.curspl in
        let raised = (high_raised P.spl_high s.cpu L.spl_high_pos).0 in
        let v' = high-Inv L cur s v in
        let (t, live, magic) = v'.current in
        let (s1, stashed, st, _, _) =
          ready_Parks L cur frame (at_high L cur s) v' raised v.consistent.level in
        let (same, code) =
          stash_result P cur (record (at_high L cur s) { curthread = none }) s1 stashed in
        let queue =
          ap (λ (x : Sys P). P.q_items x.runqueue) same
          ∙ L.addtail-items s.runqueue cur code
          ∙ ready in
        let (q, chosen, left, _) = scheduler_ready L wakes s1 n rest queue in
        let (s', result, now, order, asleep, counted) =
          rotation L cur frame (at_high L cur s) wakes s1 n q
            (stashed_switch L cur frame (at_high L cur s) wakes s_ready t s1 raised v'.running live
              magic stashed)
            st chosen in
        (
          s',
          yield_lem ∙ result,
          now,
          ap P.q_items order ∙ left,
          asleep ∙ ap (λ (x : Sys P). x.sleepers) same,
          counted ∙ ap (λ (x : Sys P). x.numthreads) same,
        )
