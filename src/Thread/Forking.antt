-- ===== src/Thread/Forking.antt =====
-- What `thread_fork` of Projects/OS161/kern/thread/thread.c does on each of its branches.
use windborne.Base.{
  ℕ, ◌+◌, ◌≤◌, ◌<◌, ◌≡◌, true, ◌≢◌, refl, sym, ap, ◌∙◌, inl, inr, ◌⊎◌, List, [], ◌∷◌, ◌++◌, Option,
  none, some, arith, length, ℕ_discrete, subst,
}
use windborne.Spl.{Cpu, spl_raised, splx, splhigh}
use windborne.Spl.Nesting.{IsConsistent, splx-splhigh}
use windborne.Platform.{Platform, Laws}
use windborne.Thread.State.{Thread, Sys, Call, vop_decref, vop_incref, update}
use windborne.Thread.Fork.{
  share_cwd, drop_cwd, fork_fail, fork_run, fork_queue, fork_zombies, fork_sleepers,
}
use windborne.Thread.Operations.{high_raised}
use windborne.Thread.Resuming.{update_other, update_self}
use windborne.Thread.ForkBranches.{
  Forking, Ends, queue_ok, queue_fails, zombies_ok, zombies_fails, sleepers_ok, sleepers_fails,
  run_lem, fail_lem, Forking-queue, Forking-zombies, Forking-sleepers,
}

module _ {P : Platform} (L : Laws P) (s0 : Sys P) (p : ℕ) (t : Thread) where
  module _ (fresh : s0.heap p ≡ none) (k : IsConsistent s0.cpu) where
    freed_heap :
        (q : ℕ) (h : ℕ → Option Thread)
        → h ≡ update s0.heap p (some t)
        → update h p none q ≡ s0.heap q
    freed_heap q h e = elim (ℕ_discrete p q) [
      | yes same ↦
          subst (λ x. update h p none x ≡ s0.heap x) same (update_self h p none ∙ sym fresh)
      | no other ↦
          update_other h p none q other ∙ ap (λ g. g q) e ∙ update_other s0.heap p (some t) q other
    ]

    restored : (c : Cpu) → c ≡ (splhigh P.spl_high s0.cpu).1 → (splx s0.cpu.curspl c).1 ≡ s0.cpu
    unfolding splhigh
    restored c e = rw e (splx-splhigh P.spl_high s0.cpu L.spl_high_pos k).2

    given_back :
        (cwd : Option ℕ) (calls : List Call)
        → calls ≡ share_cwd cwd s0.calls
        → (drop_cwd cwd calls ≡ s0.calls)
          ⊎ ((v : ℕ) × (drop_cwd cwd calls ≡ vop_decref v ∷ vop_incref v ∷ s0.calls))
    given_back none calls e = inl e
    given_back (some v) calls e = inr (v, ap (λ l. vop_decref v ∷ l) e)

    fail_Ends :
        (r : ℕ) (s : Sys P)
        → r ≢ 0
        → Forking s0 p t s
        → Ends s0 p t (fork_fail P p s0.cpu.curspl r s)
    fail_Ends r s n f = (
      r,
      none,
      record s {
        cpu = (splx s0.cpu.curspl s.cpu).1;
        heap = update s.heap p none;
        calls = drop_cwd t.t_cwd s.calls;
      },
      fail_lem P p t _ s r (ap (λ h. h p) f.heap ∙ update_self s0.heap p (some t)),
      inr (
        n,
        refl,
        record {
          heap = λ q. freed_heap q s.heap f.heap;
          ready = f.ready;
          asleep = f.asleep;
          dead = f.dead;
          numthreads = f.numthreads;
          curthread = f.curthread;
          cpu = restored s.cpu f.cpu;
          calls = given_back t.t_cwd s.calls f.calls;
          tabled = f.tabled;
          q_room = f.q_room;
          room = f.room;
        },
      ),
    )

    done_Ends :
        (s : Sys P)
        → Forking s0 p t s
        → s0.numthreads + 1 ≤ P.room s.sleepers
        → s0.numthreads + 1 ≤ P.room s.zombies
        → s0.numthreads + 1 ≤ P.q_room s.runqueue
        → length (P.q_items s0.runqueue) < s0.numthreads
        → Ends s0 p t (fork_run P p s0.cpu.curspl s)
    done_Ends s f r1 r2 r3 few =
        let code = L.addtail_code s.runqueue p (omega (arith, ap length f.ready)) in
        (
          0,
          some p,
          record s {
            runqueue = (P.q_addtail s.runqueue p).1;
            numthreads = s.numthreads + 1;
            cpu = (splx s0.cpu.curspl s.cpu).1;
          },
          run_lem P p t _ s (rw f.cpu ((high_raised P.spl_high s0.cpu L.spl_high_pos).0)) code,
          inl (
            refl,
            refl,
            record {
              heap = f.heap;
              ready = L.addtail-items s.runqueue p code ∙ ap (λ l. l ++ p ∷ []) f.ready;
              asleep = f.asleep;
              dead = f.dead;
              numthreads = omega (arith, f.numthreads);
              curthread = f.curthread;
              cpu = restored s.cpu f.cpu;
              calls = f.calls;
              tabled = f.tabled;
              q_room = omega (arith, L.addtail-room s.runqueue p);
              room = r1;
              zombie_room = r2;
            },
          ),
        )

    queue_Ends :
        (s : Sys P)
        → Forking s0 p t s
        → s0.numthreads + 1 ≤ P.room s.sleepers
        → s0.numthreads + 1 ≤ P.room s.zombies
        → length (P.q_items s0.runqueue) < s0.numthreads
        → Ends s0 p t (fork_queue P p s0.cpu.curspl s)
    queue_Ends s f r1 r2 few =
        let n = s.numthreads + 1 in
        let (more, enough) = L.q_preallocate-room s.runqueue n in
        let s' = record s { runqueue = (P.q_preallocate s.runqueue n).1 } in
        let f' =
          Forking-queue P p t s0 s f (P.q_preallocate s.runqueue n).1
            (L.q_preallocate-items s.runqueue n) more in
        let raised : spl_raised s.cpu ≡ true =
          rw f.cpu ((high_raised P.spl_high s0.cpu L.spl_high_pos).0) in
        elim (ℕ_discrete (P.q_preallocate s.runqueue n).0 0) [
          | yes e ↦
              rw (queue_ok P p t _ s raised e)
                (done_Ends s' f' r1 r2 (omega (arith, enough e, f.numthreads)) few)
          | no e ↦ rw (queue_fails P p t _ s raised e) (fail_Ends _ s' e f')
        ]

    zombies_Ends :
        (s : Sys P)
        → Forking s0 p t s
        → s0.numthreads + 1 ≤ P.room s.sleepers
        → length (P.q_items s0.runqueue) < s0.numthreads
        → Ends s0 p t (fork_zombies P p s0.cpu.curspl s)
    zombies_Ends s f r1 few =
        let n = s.numthreads + 1 in
        let (more, enough) = L.preallocate-room s.zombies n in
        let s' = record s { zombies = (P.array_preallocate s.zombies n).1 } in
        let f' =
          Forking-zombies P p t s0 s f (P.array_preallocate s.zombies n).1
            (L.preallocate-items s.zombies n) in
        elim (ℕ_discrete (P.array_preallocate s.zombies n).0 0) [
          | yes e ↦
              rw (zombies_ok P p t _ s e)
                (queue_Ends s' f' r1 (omega (arith, enough e, f.numthreads)) few)
          | no e ↦ rw (zombies_fails P p t _ s e) (fail_Ends _ s' e f')
        ]

    pub sleepers_Ends :
        (s : Sys P)
        → Forking s0 p t s
        → length (P.q_items s0.runqueue) < s0.numthreads
        → Ends s0 p t (fork_sleepers P p s0.cpu.curspl s)
    sleepers_Ends s f few =
        let n = s.numthreads + 1 in
        let (more, enough) = L.preallocate-room s.sleepers n in
        let s' = record s { sleepers = (P.array_preallocate s.sleepers n).1 } in
        let f' =
          Forking-sleepers P p t s0 s f (P.array_preallocate s.sleepers n).1
            (L.preallocate-items s.sleepers n) more in
        elim (ℕ_discrete (P.array_preallocate s.sleepers n).0 0) [
          | yes e ↦
              rw (sleepers_ok P p t _ s e)
                (zombies_Ends s' f' (omega (arith, enough e, f.numthreads)) few)
          | no e ↦ rw (sleepers_fails P p t _ s e) (fail_Ends _ s' e f')
        ]
