-- ===== src/Synch/Counting.antt =====
-- What `P` and `V` of Projects/OS161/kern/thread/synch.c do to a semaphore and to the threads.
use windborne.Base.{
  ℕ, ◌-◌, ◌^◌, ◌≡◌, refl, ap, ◌∙◌, sym, ◌⊎◌, inl, inr, true, List, some, Outcome, ok, arith, ◌++◌,
  ◌>>=◌,
}
use windborne.Base.Int.{int_inc, int_dec, ℤ, pos, negsuc, ◌≤ℤ◌, ltb_ℤ}
use windborne.Spl.{is_zero, splhigh}
use windborne.Spl.Nesting.{splx-splhigh}
use windborne.Platform.{Platform, Laws}
use windborne.Thread.State.{Sys}
use windborne.Thread.Scheduler.{thread_wakeup}
use windborne.Thread.Wakeup.{woken, kept, thread_wakeup_lem}
use windborne.Thread.Switch.{thread_sleep}
use windborne.Thread.Invariant.{Inv}
use windborne.Thread.Resuming.{recorded-Inv}
use windborne.Thread.Operations.{at_high, high-Inv, high_raised}
use windborne.Thread.Waking.{Inv_lem, Woken-Inv}
use windborne.Synch.Falling.{Sleeps, in_interrupt-splhigh, sleep_lem}
use windborne.Synch.State.{Semaphore, Synch, outside, in_proberen, put}
use windborne.Synch.Semaphores.{raise, lower, proberen_done, proberen_loop, proberen, verhogen}

above_zero : (c : ℤ) → pos 1 ≤ℤ c → ltb_ℤ (pos 0) c ≡ true
above_zero c h = ground arith

pub int_inc_lem : (c : ℤ) → pos 0 ≤ℤ c → c ≤ℤ pos (2 ^ 31 - 2) → pos 1 ≤ℤ int_inc c
int_inc_lem (pos n) low high = ground arith
int_inc_lem (negsuc n) low high = absurd (omega arith)

module _ {P : Platform} (L : Laws P) (cur : ℕ) where
  pub lower-raise : (s : Sys P) → Inv P cur s → lower P (raise P s).0 (raise P s).1 ≡ s
  unfolding raise lower splhigh
  lower-raise s v =
      ap (λ c. record s { cpu = c }) (splx-splhigh P.spl_high s.cpu L.spl_high_pos v.consistent).2

  module _ (wakes : List ℕ) (sem : ℕ) (k : Semaphore) (s : Synch P)
      (here : s.sems sem ≡ some k) where
    loop_empty :
        (spl : ℤ)
        → is_zero k.count ≡ true
        → s.sys.curthread ≡ some cur
        → proberen_loop P wakes sem spl s ≡ (
            thread_sleep P wakes sem s.sys >>= λ t.
            ok (record s { sys = t; resting = put s.resting cur (in_proberen sem spl) }))
    unfolding proberen_loop
    loop_empty spl e c = rw (here, e, c) refl

    loop_positive :
        (spl : ℤ) (t : Sys P)
        → pos 1 ≤ℤ k.count
        → s.sys.curthread ≡ some cur
        → lower P spl s.sys ≡ t
        → proberen_loop P wakes sem spl s
          ≡ ok (record s {
            sys = t;
            sems = put s.sems sem (some (record k { count = int_dec k.count }));
            resting = put s.resting cur outside;
          })
    unfolding proberen_loop proberen_done
    loop_positive spl t e c l = rw (here, c, sym l) (ground arith)

    -- The state behind a `P` that has not slept.
    abbrev pub taken : Synch P
    taken = record s {
      sems = put s.sems sem (some (record k { count = int_dec k.count }));
      resting = put s.resting cur outside;
    }

    -- The end of a call of `P`.
    abbrev pub Probes : Outcome (Synch P) → Type 0
    Probes o =
        ((pos 1 ≤ℤ k.count) × (o ≡ ok taken))
        ⊎ ((k.count ≡ pos 0) × Sleeps cur wakes sem (in_proberen sem s.sys.cpu.curspl) s o)

    proberen_steps :
        is_zero s.sys.cpu.in_interrupt ≡ true
        → proberen P wakes sem s
          ≡ proberen_loop P wakes sem (raise P s.sys).0 (record s { sys = (raise P s.sys).1 })
    unfolding proberen
    proberen_steps z = rw z refl

module _ {P : Platform} (L : Laws P) (cur : ℕ) (wakes : List ℕ) (sem : ℕ) (k : Semaphore)
    (s : Synch P) (here : s.sems sem ≡ some k) (v : Inv P cur s.sys)
    (outer : is_zero s.sys.cpu.in_interrupt ≡ true) where
  proberen_high :
      proberen P wakes sem s
      ≡ proberen_loop P wakes sem s.sys.cpu.curspl (record s { sys = at_high L cur s.sys })
  unfolding raise splhigh
  proberen_high = proberen_steps L cur wakes sem k s here outer

  proberen-Sleeps :
      is_zero k.count ≡ true
      → Sleeps cur wakes sem (in_proberen sem s.sys.cpu.curspl) s (proberen P wakes sem s)
  proberen-Sleeps e =
      let s1 = record s { sys = at_high L cur s.sys } in
      rw (proberen_high, loop_empty L cur wakes sem k s1 here s.sys.cpu.curspl e v.running)
        (sleep_lem L cur wakes sem (in_proberen sem s.sys.cpu.curspl) s1
          (high_raised P.spl_high s.sys.cpu L.spl_high_pos).0
          (in_interrupt-splhigh P.spl_high s.sys.cpu outer) (high-Inv L cur s.sys v))

  restored : lower P s.sys.cpu.curspl (at_high L cur s.sys) ≡ s.sys
  unfolding raise splhigh
  restored = lower-raise L cur s.sys v

  pub proberen_takes :
      pos 1 ≤ℤ k.count → proberen P wakes sem s ≡ ok (taken L cur wakes sem k s here)
  proberen_takes h =
      let s1 = record s { sys = at_high L cur s.sys } in
      proberen_high
      ∙ loop_positive L cur wakes sem k s1 here s.sys.cpu.curspl s.sys h v.running restored

  -- `P`, called from the invariant, outside interrupt handlers, on a semaphore whose count is not
  -- negative. Where the count is positive, it returns at once with the count one lower, and
  -- threads, lists and interrupt level are what they were. Where the count is zero, the count stays
  -- and the caller goes to sleep in the loop: the processor idles, as nobody was ready, or a
  -- thread runs with the invariant. Unless an interrupt has woken the sleepers on the semaphore
  -- before that, the thread is another one, and the caller is a sleeper whose address is the
  -- semaphore's. Nothing panics.
  pub proberen_lem : pos 0 ≤ℤ k.count → Probes L cur wakes sem k s here (proberen P wakes sem s)
  proberen_lem h = elim (sign k.count h) [
    | inl zero_count ↦ inr (zero_count, proberen-Sleeps (rw zero_count refl))
    | inr positive ↦ inl (positive, proberen_takes positive)
  ]
    where
      sign : (c : ℤ) → pos 0 ≤ℤ c → (c ≡ pos 0) ⊎ (pos 1 ≤ℤ c)
      sign c g = ground arith

module _ {P : Platform} (L : Laws P) (cur sem : ℕ) (k : Semaphore) (s : Synch P) where
  -- The state behind a `V`, with the sleepers on the semaphore ready.
  pub record Posted (o : Outcome (Synch P)) : Type 0 where
    pub array : P.Array
    pub queue : P.Queue
    pub result :
        o
        ≡ ok (record s {
          sys = record (s.sys) { sleepers = array; runqueue = queue };
          sems = put s.sems sem (some (record k { count = int_inc k.count }));
        })
    pub asleep : P.items array ≡ kept s.sys.heap sem (P.items s.sys.sleepers)
    pub ready :
        P.q_items queue ≡ P.q_items s.sys.runqueue ++ woken s.sys.heap sem (P.items s.sys.sleepers)
    pub intact : Inv P cur (record (s.sys) { sleepers = array; runqueue = queue })

  verhogen_steps :
      (a : P.Array) (q : P.Queue)
      → s.sems sem ≡ some k
      → pos 1 ≤ℤ int_inc k.count
      → thread_wakeup P sem (at_high L cur s.sys)
        ≡ ok (record (at_high L cur s.sys) { sleepers = a; runqueue = q })
      → Inv P cur s.sys
      → verhogen P sem s
        ≡ ok (record s {
          sys = record (s.sys) { sleepers = a; runqueue = q };
          sems = put s.sems sem (some (record k { count = int_inc k.count }));
        })
  unfolding verhogen raise lower splhigh
  verhogen_steps a q e h w v =
      rw
        (
          e,
          above_zero (int_inc k.count) h,
          w,
          (splx-splhigh P.spl_high s.sys.cpu L.spl_high_pos v.consistent).2,
        )
        refl

  module _ (here : s.sems sem ≡ some k) (v : Inv P cur s.sys) where
    -- Where the count that is asserted to be positive is.
    pub verhogen-Posted : pos 1 ≤ℤ int_inc k.count → Posted (verhogen P sem s)
    verhogen-Posted h =
        let v' = high-Inv L cur s.sys v in
        let space = Inv_lem L cur sem (at_high L cur s.sys) v' in
        let w =
          thread_wakeup_lem P L sem (at_high L cur s.sys)
            (high_raised P.spl_high s.sys.cpu L.spl_high_pos).0 space.0 space.1 in
        record {
          array = w.array;
          queue = w.queue;
          result = verhogen_steps w.array w.queue here h w.result v;
          asleep = w.asleep;
          ready = w.ready;
          intact =
              recorded-Inv L cur
                (record (at_high L cur s.sys) { sleepers = w.array; runqueue = w.queue }) s.sys.cpu
                s.sys.calls v.consistent (Woken-Inv L cur sem (at_high L cur s.sys) v' w);
        }

    -- `V`, called from the invariant on a semaphore whose count is neither negative nor the
    -- greatest `int`: the count is one higher, every thread that sleeps on the semaphore is ready,
    -- behind the threads that were ready and in the order of the sleepers, nobody else is woken,
    -- and the caller goes on at its level, with the invariant.
    pub verhogen_lem : pos 0 ≤ℤ k.count → k.count ≤ℤ pos (2 ^ 31 - 2) → Posted (verhogen P sem s)
    verhogen_lem low high = verhogen-Posted (int_inc_lem k.count low high)
