-- ===== src/Thread/Exit.antt =====
-- `thread_exit` of Projects/OS161/kern/thread/thread.c keeps the invariant.
use windborne.Base.{
  ℕ, ◌-◌, ◌<◌, ◌≡◌, refl, ap, ◌∙◌, inl, inr, subst, count, true, List, ◌∷◌, Option, none, some,
  length, arith,
}
use windborne.Platform.{Platform, Laws}
use windborne.Thread.State.{
  Thread, exiting, s_zomb, Sys, Call, update, magic_ok, as_destroy, vop_decref,
}
use windborne.Thread.Switch.{mi_switch, exit_thread, thread_exit, exit_vmspace, exit_cwd}
use windborne.Thread.Invariant.{Inv, Settles}
use windborne.Thread.Resuming.{
  recorded-Inv, stored-Inv, update_self, update_other, not_cur, sleep_address,
}
use windborne.Thread.Parking.{Stashed-Goes, Goes}
use windborne.Thread.Operations.{high_raised, at_high, high-Inv, zomb_Parks, Goes-Settles}

module _ {P : Platform} (L : Laws P) (cur : ℕ) where
  -- `s1` is `s` with a new structure for the running thread and more calls recorded.
  record Stripped (s : Sys P) (t1 : Thread) (s1 : Sys P) : Type 0 where
    heap : ℕ → Option Thread
    calls : List Call
    same : s1 ≡ record s { heap = heap; calls = calls }
    inv : Inv P cur (record s { heap = heap; calls = calls })
    here : heap cur ≡ some t1
    others : (p : ℕ) → (cur ≡ p → ⊥) → heap p ≡ s.heap p

  strip_vmspace :
      (s : Sys P) (t : Thread) (o : Option ℕ)
      → t.t_vmspace ≡ o
      → s.heap cur ≡ some t
      → magic_ok t.t_stack ≡ true
      → Inv P cur s
      → Stripped s (record t { t_vmspace = none }) (exit_vmspace P cur t s)
  unfolding exit_vmspace
  strip_vmspace s t none e l m v = record {
    heap = s.heap;
    calls = s.calls;
    same = ground arith;
    inv = v;
    here = ground arith;
    others = λ p n. refl;
  }
  strip_vmspace s t (some a) e l m v = record {
    heap = update s.heap cur (some (record t { t_vmspace = none }));
    calls = as_destroy a ∷ s.calls;
    same = ground arith;
    inv =
        recorded-Inv L cur _ s.cpu (as_destroy a ∷ s.calls) v.consistent
          (stored-Inv L cur s (record t { t_vmspace = none }) m v);
    here = update_self s.heap cur _;
    others = update_other s.heap cur _;
  }

  strip_cwd :
      (s : Sys P) (t : Thread) (o : Option ℕ)
      → t.t_cwd ≡ o
      → s.heap cur ≡ some t
      → magic_ok t.t_stack ≡ true
      → Inv P cur s
      → Stripped s (record t { t_cwd = none }) (exit_cwd P cur t s)
  unfolding exit_cwd
  strip_cwd s t none e l m v = record {
    heap = s.heap;
    calls = s.calls;
    same = ground arith;
    inv = v;
    here = ground arith;
    others = λ p n. refl;
  }
  strip_cwd s t (some a) e l m v = record {
    heap = update s.heap cur (some (record t { t_cwd = none }));
    calls = vop_decref a ∷ s.calls;
    same = ground arith;
    inv =
        recorded-Inv L cur _ s.cpu (vop_decref a ∷ s.calls) v.consistent
          (stored-Inv L cur s (record t { t_cwd = none }) m v);
    here = update_self s.heap cur _;
    others = update_other s.heap cur _;
  }

  exit_start :
      (wakes : List ℕ) (s : Sys P) (t : Thread)
      → s.curthread ≡ some cur
      → s.heap cur ≡ some t
      → magic_ok t.t_stack ≡ true
      → thread_exit P wakes s ≡ exit_thread P wakes cur t (at_high L cur s)
  unfolding thread_exit
  exit_start wakes s t c l m = ground arith

  exit_steps :
      (wakes : List ℕ) (s s1 s2 : Sys P) (t t1 : Thread)
      → exit_vmspace P cur t s ≡ s1
      → s1.heap cur ≡ some t1
      → exit_cwd P cur t1 s1 ≡ s2
      → 0 < s2.numthreads
      → exit_thread P wakes cur t s
        ≡ mi_switch P wakes s_zomb exiting (record s2 { numthreads = s2.numthreads - 1 })
  unfolding exit_thread
  exit_steps wakes s s1 s2 t t1 e1 l1 e2 n = rw (exit_thread, e1, l1, e2) (ground arith)

  pub thread_exit-Goes :
      (wakes : List ℕ) (s : Sys P)
      → length (P.items s.zombies) < P.room s.zombies
      → Inv P cur s
      → Goes s (thread_exit P wakes s)
  thread_exit-Goes wakes s room v =
      let (t, l, m) = v.current in
      let v0 = high-Inv L cur s v in
      let k1 = strip_vmspace (at_high L cur s) t t.t_vmspace refl l m v0 in
      let t1 = record t { t_vmspace = none } in
      let s1 = record (at_high L cur s) { heap = k1.heap; calls = k1.calls } in
      let k2 = strip_cwd s1 t1 t.t_cwd refl k1.here m k1.inv in
      let s2 = record (at_high L cur s) { heap = k2.heap; calls = k2.calls } in
      let raised = (high_raised P.spl_high s.cpu L.spl_high_pos).0 in
      let (s3, stashed, st, heap, list) =
        zomb_Parks L cur s2 raised k2.inv (record t1 { t_cwd = none }, k2.here, refl, refl) room in
      rw
        (
          exit_start wakes s t v.running l m,
          exit_steps wakes (at_high L cur s) s1 s2 t t1 k1.same k1.here k2.same
              (omega (arith, v.population)),
        )
        (elim (Stashed-Goes L cur exiting (record s2 { numthreads = s.numthreads - 1 }) wakes s_zomb
          s3 raised v.running (record t1 { t_cwd = none }, k2.here, m) stashed st) [
            | inl waits ↦ inl waits
            | inr (nu, s', result, inv, fewer) ↦ inr (
              nu,
              s',
              result,
              inv,
              λ p c.
                  let (there, address) = fewer p c in
                  let asleep = subst (λ a. 0 < count p (P.items a)) list there in
                  let other = not_cur v p (omega (arith, asleep)) in
                  (
                    asleep,
                    address
                        ∙ ap (λ h. sleep_address (h p)) heap
                        ∙ ap sleep_address (k2.others p other ∙ k1.others p other),
                  ),
            )
          ])

  -- `thread_exit`, called from the invariant and with space for one more zombie, ends with the
  -- invariant for the thread that runs next, or with the processor idle. No assertion fails, and
  -- the panic behind its `mi_switch` is not reached.
  pub thread_exit-Inv :
      (wakes : List ℕ) (s : Sys P)
      → length (P.items s.zombies) < P.room s.zombies
      → Inv P cur s
      → Settles (thread_exit P wakes s)
  thread_exit-Inv wakes s room v =
      Goes-Settles s (thread_exit P wakes s) (thread_exit-Goes wakes s room v)
