-- ===== src/Thread/Operations.antt =====
-- `thread_yield`, `thread_sleep` and `thread_exit` of Projects/OS161/kern/thread/thread.c keep the
-- invariant, for every sequence of interrupts that comes while the scheduler idles.
use windborne.Base.{
  [], ℕ, ◌-◌, ◌<◌, ◌≡◌, refl, ap, sym, ◌∙◌, ◌⊎◌, inl, inr, Outcome, idle, true, List, none, some,
  ok, arith, length, count, count-cons, count-cons_self, count-snoc, subst, ℕ_discrete,
}
use windborne.Base.Int.{pos}
use windborne.Spl.{Cpu, is_zero, spl_raised, splhigh}
use windborne.Spl.Nesting.{IsConsistent, splx-IsConsistent}
use windborne.Platform.{Platform, Laws}
use windborne.Thread.State.{
  Thread, exiting, yielding, sleeping, s_ready, s_sleep, s_zomb, Sys, update,
}
use windborne.Thread.Reaping.{IsDead}
use windborne.Thread.Switch.{stash, mi_switch, thread_yield, thread_sleep}
use windborne.Thread.Invariant.{Inv, Settles}
use windborne.Thread.Resuming.{
  recorded-Inv, stored-Inv, not_cur, sleep_address, update_self, update_other,
}
use windborne.Thread.Switching.{Stashed}
use windborne.Thread.Staying.{Stashed-Stays}
use windborne.Thread.Parking.{ready_Parks, sleep_Parks, Stashed-Goes, Goes}

pub high_raised :
    (n : ℕ) (c : Cpu) → 0 < n → (spl_raised (splhigh n c).1 ≡ true) × IsConsistent (splhigh n c).1
unfolding splhigh
high_raised n c h = (ground arith, (splx-IsConsistent (pos n) c (omega arith)).2)

-- The sleeper `cur` is new, at `addr`, or nobody is.
abbrev pub FallsAsleep : {P : Platform} → ℕ → ℕ → Sys P → Outcome (Sys P) → Type 0
FallsAsleep {P} cur addr s o =
    (o ≡ idle)
    ⊎ ((nu : ℕ) × (s' : Sys P) × (o ≡ ok s')
        × Inv P nu s'
        × ((p : ℕ)
            → 0 < count p (P.items s'.sleepers)
            → (sleep_address (s'.heap p) ≡ some addr)
              ⊎ (0 < count p (P.items s.sleepers))
                × (sleep_address (s'.heap p) ≡ sleep_address (s.heap p))))

pub Goes-Settles : {P : Platform} (s : Sys P) (o : Outcome (Sys P)) → Goes s o → Settles o
Goes-Settles s o (inl waits) = inl waits
Goes-Settles s o (inr (nu, s', result, inv, _)) = inr (nu, (s', result, inv))

pub FallsAsleep-Settles :
    {P : Platform} (cur addr : ℕ) (s : Sys P) (o : Outcome (Sys P))
    → FallsAsleep cur addr s o
    → Settles o
FallsAsleep-Settles cur addr s o (inl waits) = inl waits
FallsAsleep-Settles cur addr s o (inr (nu, s', result, inv, _)) = inr (nu, (s', result, inv))

module _ {P : Platform} (L : Laws P) (cur : ℕ) (s : Sys P) where
  -- The state behind `splhigh()`.
  abbrev pub at_high : Sys P
  at_high = record s { cpu = (splhigh P.spl_high s.cpu).1 }

  pub high-Inv : Inv P cur s → Inv P cur at_high
  high-Inv v =
      recorded-Inv L cur s (splhigh P.spl_high s.cpu).1 s.calls
        (high_raised P.spl_high s.cpu L.spl_high_pos).1 v

  pub thread_yield-Goes : (wakes : List ℕ) → Inv P cur s → Goes s (thread_yield P wakes s)
  unfolding thread_yield splhigh
  thread_yield-Goes wakes v =
      let raised = (high_raised P.spl_high s.cpu L.spl_high_pos).0 in
      let v' = high-Inv v in
      let frame = yielding s.cpu.curspl in
      let (s1, k, st, same, list) = ready_Parks L cur frame at_high v' raised v.consistent.level in
      elim (Stashed-Goes L cur frame at_high wakes s_ready s1 raised v'.running v'.current k st) [
        | inl waits ↦ inl waits
        | inr (nu, s', result, inv, fewer) ↦ inr (
          nu,
          s',
          result,
          inv,
          λ p c. (
            omega (arith, (fewer p c).0, ap (count p) list),
            (fewer p c).1 ∙ ap (λ h. sleep_address (h p)) same,
          ),
        )
      ]

  -- `thread_yield`, called at any level from the invariant, ends with the invariant for the thread
  -- that runs next, or with the processor idle; no assertion on its way fails, the one on the run
  -- queue's space included.
  pub thread_yield-Inv : (wakes : List ℕ) → Inv P cur s → Settles (thread_yield P wakes s)
  thread_yield-Inv wakes v = Goes-Settles s (thread_yield P wakes s) (thread_yield-Goes wakes v)

  sleep_lem :
      (wakes : List ℕ) (addr : ℕ) (t : Thread)
      → is_zero s.cpu.in_interrupt ≡ true
      → s.curthread ≡ some cur
      → s.heap cur ≡ some t
      → thread_sleep P wakes addr s
        ≡ mi_switch P wakes s_sleep sleeping
            (record s { heap = update s.heap cur (some (record t { t_sleepaddr = some addr })) })
  unfolding thread_sleep
  sleep_lem wakes addr t z c l = ground arith

  pub thread_sleep-FallsAsleep :
      (wakes : List ℕ) (addr : ℕ)
      → spl_raised s.cpu ≡ true
      → is_zero s.cpu.in_interrupt ≡ true
      → Inv P cur s
      → FallsAsleep cur addr s (thread_sleep P wakes addr s)
  thread_sleep-FallsAsleep wakes addr raised outside v =
      let (t, live, magic) = v.current in
      let slept = record t { t_sleepaddr = some addr } in
      let s' = record s { heap = update s.heap cur (some slept) } in
      let v' = stored-Inv L cur s slept magic v in
      let (s1, k, st, same, list) = sleep_Parks L cur sleeping s' v' raised tt in
      rw (sleep_lem wakes addr t outside v.running live)
        (elim (Stashed-Goes L cur sleeping s' wakes s_sleep s1 raised v'.running v'.current k st) [
          | inl waits ↦ inl waits
          | inr (nu, s2, result, inv, fewer) ↦ inr (
            nu,
            s2,
            result,
            inv,
            λ p c.
                let (there, address) = fewer p c in
                let address' = address ∙ ap (λ h. sleep_address (h p)) same in
                elim (ℕ_discrete cur p) [
                  | yes e ↦ inl (
                      address'
                      ∙ ap (λ x. sleep_address (update s.heap cur (some slept) x)) (sym e)
                      ∙ ap sleep_address (update_self s.heap cur (some slept)))
                  | no n ↦ inr (
                    ground (
                      arith,
                      there,
                      ap (count p) list,
                      count-snoc p (P.items s.sleepers) cur,
                      count-cons p cur (P.items s.sleepers),
                    ),
                    address' ∙ ap sleep_address (update_other s.heap cur (some slept) p n),
                  )
                ],
          )
        ])

  sleep_queue :
      (s' s1 : Sys P)
      → stash P s_sleep cur (record s' { curthread = none }) ≡ ok (0, s1)
      → s1.runqueue ≡ s'.runqueue
  unfolding stash
  sleep_queue s' s1 k = ground arith

  -- The caller is among the sleepers, unless an interrupt has woken those at its address.
  pub thread_sleep-Stays :
      (wakes : List ℕ) (addr : ℕ)
      → spl_raised s.cpu ≡ true
      → is_zero s.cpu.in_interrupt ≡ true
      → Inv P cur s
      → ((thread_sleep P wakes addr s ≡ idle) × (P.q_items s.runqueue ≡ []))
        ⊎ ((s' : Sys P) × (thread_sleep P wakes addr s ≡ ok s')
            × ((0 < count addr wakes) ⊎ (0 < count cur (P.items s'.sleepers))))
  thread_sleep-Stays wakes addr raised outside v =
      let (t, live, magic) = v.current in
      let slept = record t { t_sleepaddr = some addr } in
      let s' = record s { heap = update s.heap cur (some slept) } in
      let v' = stored-Inv L cur s slept magic v in
      let (s1, k, st, same, list) = sleep_Parks L cur sleeping s' v' raised tt in
      let here : sleep_address (s1.heap cur) ≡ some addr =
        ap (λ h. sleep_address (h cur)) same
        ∙ ap sleep_address (update_self s.heap cur (some slept)) in
      rw (sleep_lem wakes addr t outside v.running live)
        (elim (Stashed-Stays L cur sleeping s' wakes s_sleep s1 raised v'.running v'.current k st) [
          | inl (waits, empty) ↦ inl (waits, sym (ap P.q_items (sleep_queue s' s1 k)) ∙ empty)
          | inr (s2, result, stays) ↦ inr (
            s2,
            result,
            elim (stays cur addr here) [
              | inl woke ↦ inl woke
              | inr on ↦ inr (
                  omega (
                    arith,
                    on,
                    ap (count cur) list,
                    count-snoc cur (P.items s.sleepers) cur,
                    count-cons_self cur (P.items s.sleepers),
                  ))
            ],
          )
        ])

  -- `thread_sleep`, called from the invariant with interrupts off and outside interrupt handlers,
  -- ends with the invariant for the thread that runs next, or with the processor idle; no assertion
  -- on its way fails.
  pub thread_sleep-Inv :
      (wakes : List ℕ) (addr : ℕ)
      → spl_raised s.cpu ≡ true
      → is_zero s.cpu.in_interrupt ≡ true
      → Inv P cur s
      → Settles (thread_sleep P wakes addr s)
  thread_sleep-Inv wakes addr raised outside v =
      FallsAsleep-Settles cur addr s (thread_sleep P wakes addr s)
        (thread_sleep-FallsAsleep wakes addr raised outside v)

  -- The running thread, without its address space and directory, goes to the zombies.
  pub zomb_Parks :
      spl_raised s.cpu ≡ true
      → Inv P cur s
      → IsDead (s.heap cur)
      → length (P.items s.zombies) < P.room s.zombies
      → (s1 : Sys P) × (stash P s_zomb cur
            (record s { curthread = none; numthreads = s.numthreads - 1 })
          ≡ ok (0, s1))
        × Stashed P cur exiting s1
        × (s1.heap ≡ s.heap)
        × (s1.sleepers ≡ s.sleepers)
  unfolding stash
  zomb_Parks raised v d room =
      let code = L.add_code s.zombies cur room in
      let added = L.add-items s.zombies cur code in
      (
        record s {
          curthread = none;
          numthreads = s.numthreads - 1;
          zombies = (P.array_add s.zombies cur).1;
        },
        rw code refl,
        record {
          old = let (t, e, _, _) = d in (t, e);
          intact = λ p c. let (t, e, m, _) = v.parked p c in (t, e, m);
          parked = λ p c n. v.parked p c;
          resumable = λ c. absurd (not_cur v cur (omega arith) refl);
          dead = λ p c. elim (ℕ_discrete cur p) [
            | yes e ↦ subst (λ x. IsDead (s.heap x)) e d
            | no n ↦ v.dead p (
                ground (
                  arith,
                  ap (count p) added,
                  count-snoc p (P.items s.zombies) cur,
                  count-cons p cur (P.items s.zombies),
                ))
          ];
          unique = λ p. omega (
            arith,
            v.unique p,
            ap (count p) added,
            count-snoc p (P.items s.zombies) cur,
            count-cons p cur (P.items s.zombies),
            count-cons p cur (P.q_items s.runqueue),
          );
          population = omega (arith, v.population);
          q_space = omega (arith, v.q_space);
          space = omega (arith, v.space);
          consistent = v.consistent;
          raised = raised;
        },
        refl,
        refl,
      )
