-- ===== src/Thread/Wakeup.antt =====
-- What `thread_wakeup` of Projects/OS161/kern/thread/thread.c does to the two queues.
use mathlib.Core.List.{append_assoc, append-nil}
use windborne.Base.{
  ℕ, zero, suc, ◌+◌, ◌≤◌, ◌<◌, ◌≡◌, refl, sym, ap, ◌∙◌, inl, inr, Bool, true, false, List, [], ◌∷◌,
  ◌++◌, Option, none, some, Outcome, ok, length, length-append, remove_nth, remove_nth-middle,
  if◌then◌else◌, arith, All, Bool-cases, count, count-nil, count-cons,
}
use windborne.Spl.{spl_raised}
use windborne.Platform.{Platform, Laws}
use windborne.Platform.Indexing.{index_lt, index_guy}
use windborne.Thread.State.{Thread, Sys, sleeps_at}
use windborne.Thread.Scheduler.{wakeup_loop, thread_wakeup}

-- The thread is allocated.
abbrev pub IsLive : (ℕ → Option Thread) → ℕ → Type 0
IsLive h p = (t : Thread) × (h p ≡ some t)

abbrev pub asleep_at : (ℕ → Option Thread) → ℕ → ℕ → Bool
asleep_at h addr p = elim (h p) [ none ↦ false | some t ↦ sleeps_at addr t.t_sleepaddr ]

-- The threads of a list that sleep at an address, and the others, in the order of the list.
unfoldable pub woken : (ℕ → Option Thread) → ℕ → List ℕ → List ℕ
woken h addr [] = []
woken h addr (p ∷ ps) = let rest = woken h addr ps in if asleep_at h addr p then p ∷ rest else rest

unfoldable pub kept : (ℕ → Option Thread) → ℕ → List ℕ → List ℕ
kept h addr [] = []
kept h addr (p ∷ ps) = let rest = kept h addr ps in if asleep_at h addr p then rest else p ∷ rest

pub length-woken-kept :
    (h : ℕ → Option Thread) (addr : ℕ) (ps : List ℕ)
    → length (woken h addr ps) + length (kept h addr ps) ≡ length ps
unfolding woken kept
length-woken-kept h addr [] = refl
length-woken-kept h addr (p ∷ ps) = ground (arith, length-woken-kept h addr ps)

pub count-woken-kept :
    (h : ℕ → Option Thread) (addr p : ℕ) (ps : List ℕ)
    → count p (woken h addr ps) + count p (kept h addr ps) ≡ count p ps
unfolding woken kept
count-woken-kept h addr p [] = omega (arith, count-nil p)
count-woken-kept h addr p (x ∷ ps) = ground (
  arith,
  count-woken-kept h addr p ps,
  count-cons p x ps,
  count-cons p x (woken h addr ps),
  count-cons p x (kept h addr ps),
)

module _ (h : ℕ → Option Thread) (addr p : ℕ) (t : Thread) (ps : List ℕ) (live : h p ≡ some t) where
  pub cons_kept :
      sleeps_at addr t.t_sleepaddr ≡ false
      → (kept h addr (p ∷ ps) ≡ p ∷ kept h addr ps) × (woken h addr (p ∷ ps) ≡ woken h addr ps)
  unfolding woken kept
  cons_kept e = ground arith

  pub cons_woken :
      sleeps_at addr t.t_sleepaddr ≡ true
      → (kept h addr (p ∷ ps) ≡ kept h addr ps) × (woken h addr (p ∷ ps) ≡ p ∷ woken h addr ps)
  unfolding woken kept
  cons_woken e = ground arith

module _ (P : Platform) where
  -- The state in which the sleeper `p` at index `i` has become ready.
  abbrev readied : ℕ → ℕ → Sys P → Sys P
  readied i p s = record s {
    sleepers = P.array_remove s.sleepers i;
    runqueue = (P.q_addtail s.runqueue p).1;
  }

  loop_end :
      (f i addr : ℕ) (s : Sys P)
      → P.array_getnum s.sleepers ≤ i
      → wakeup_loop P (suc f) i addr s ≡ ok s
  unfolding wakeup_loop
  loop_end f i addr s h = ground arith

  loop_keep :
      (f i addr p : ℕ) (t : Thread) (s : Sys P)
      → i < P.array_getnum s.sleepers
      → P.array_getguy s.sleepers i ≡ p
      → s.heap p ≡ some t
      → sleeps_at addr t.t_sleepaddr ≡ false
      → wakeup_loop P (suc f) i addr s ≡ wakeup_loop P f (i + 1) addr s
  unfolding wakeup_loop
  loop_keep f i addr p t s h e l n = ground arith

  loop_wake :
      (f i addr p : ℕ) (t : Thread) (s : Sys P)
      → spl_raised s.cpu ≡ true
      → i < P.array_getnum s.sleepers
      → P.array_getguy s.sleepers i ≡ p
      → s.heap p ≡ some t
      → sleeps_at addr t.t_sleepaddr ≡ true
      → (P.q_addtail s.runqueue p).0 ≡ 0
      → wakeup_loop P (suc f) i addr s ≡ wakeup_loop P f i addr (readied i p s)
  unfolding wakeup_loop
  loop_wake f i addr p t s r h e l n c = ground arith

  -- `s` goes on with `xs` left of the sleepers and `ys` put on the run queue.
  pub record Woken (s : Sys P) (xs ys : List ℕ) (o : Outcome (Sys P)) : Type 0 where
    pub array : P.Array
    pub queue : P.Queue
    pub result : o ≡ ok (record s { sleepers = array; runqueue = queue })
    pub asleep : P.items array ≡ xs
    pub ready : P.q_items queue ≡ P.q_items s.runqueue ++ ys
    pub room : P.room s.sleepers ≤ P.room array
    pub q_room : P.q_room s.runqueue ≤ P.q_room queue

  module _ (L : Laws P) where
    keep_case :
        (fuel i addr p : ℕ) (t : Thread) (s : Sys P) (pre ps : List ℕ)
        → P.items s.sleepers ≡ pre ++ p ∷ ps
        → length pre ≡ i
        → s.heap p ≡ some t
        → sleeps_at addr t.t_sleepaddr ≡ false
        → Woken s
            ((pre ++ p ∷ []) ++ kept s.heap addr ps)
            (woken s.heap addr ps)
            (wakeup_loop P fuel (i + 1) addr s)
        → Woken s
            (pre ++ kept s.heap addr (p ∷ ps))
            (woken s.heap addr (p ∷ ps))
            (wakeup_loop P (suc fuel) i addr s)
    keep_case fuel i addr p t s pre ps e n live no_match w =
        rw
          (
            loop_keep fuel i addr p t s (index_lt L s.sleepers pre ps p i e n)
                (index_guy L s.sleepers pre ps p i e n) live no_match,
            (cons_kept s.heap addr p t ps live no_match).0,
            (cons_kept s.heap addr p t ps live no_match).1,
            ← append_assoc pre (p ∷ []) (kept s.heap addr ps),
          )
          w

    wake_case :
        (fuel i addr p : ℕ) (t : Thread) (s : Sys P) (pre ps : List ℕ)
        → spl_raised s.cpu ≡ true
        → P.items s.sleepers ≡ pre ++ p ∷ ps
        → length pre ≡ i
        → s.heap p ≡ some t
        → sleeps_at addr t.t_sleepaddr ≡ true
        → length (P.q_items s.runqueue) < P.q_room s.runqueue
        → Woken
            (readied i p s)
            (pre ++ kept s.heap addr ps)
            (woken s.heap addr ps)
            (wakeup_loop P fuel i addr (readied i p s))
        → Woken s
            (pre ++ kept s.heap addr (p ∷ ps))
            (woken s.heap addr (p ∷ ps))
            (wakeup_loop P (suc fuel) i addr s)
    wake_case fuel i addr p t s pre ps r e n live match c w =
        rw
          (
            loop_wake fuel i addr p t s r (index_lt L s.sleepers pre ps p i e n)
                (index_guy L s.sleepers pre ps p i e n) live match (L.addtail_code s.runqueue p c),
            (cons_woken s.heap addr p t ps live match).0,
            (cons_woken s.heap addr p t ps live match).1,
          )
          (record {
            array = w.array;
            queue = w.queue;
            result = w.result;
            asleep = w.asleep;
            ready =
                w.ready
                ∙ ap (λ l. l ++ woken s.heap addr ps)
                    (L.addtail-items s.runqueue p (L.addtail_code s.runqueue p c))
                ∙ append_assoc (P.q_items s.runqueue) (p ∷ []) (woken s.heap addr ps);
            room = omega (arith, w.room, L.remove-room s.sleepers i);
            q_room = omega (arith, w.q_room, L.addtail-room s.runqueue p);
          })

    end_case :
        (fuel i addr : ℕ) (s : Sys P) (pre : List ℕ)
        → P.items s.sleepers ≡ pre ++ []
        → P.array_getnum s.sleepers ≤ i
        → Woken s
            (pre ++ kept s.heap addr [])
            (woken s.heap addr [])
            (wakeup_loop P (suc fuel) i addr s)
    unfolding woken kept
    end_case fuel i addr s pre e n = record {
      array = s.sleepers;
      queue = s.runqueue;
      result = loop_end fuel i addr s n;
      asleep = e;
      ready = sym (append-nil (P.q_items s.runqueue));
      room = omega arith;
      q_room = omega arith;
    }

    loop-Woken :
        (fuel i addr : ℕ) (s : Sys P) (pre post : List ℕ)
        → spl_raised s.cpu ≡ true
        → P.items s.sleepers ≡ pre ++ post
        → length pre ≡ i
        → length post < fuel
        → All (IsLive s.heap) post
        → length (P.q_items s.runqueue) + length post ≤ P.q_room s.runqueue
        → Woken s
            (pre ++ kept s.heap addr post)
            (woken s.heap addr post)
            (wakeup_loop P fuel i addr s)
    loop-Woken zero i addr s pre post r e n f a c = absurd (omega arith)
    loop-Woken (suc fuel) i addr s pre [] r e n f a c =
        end_case fuel i addr s pre e
          (omega (arith, L.getnum s.sleepers, ap length e, length-append pre []))
    loop-Woken (suc fuel) i addr s pre (p ∷ ps) r e n f ((t, live), a) c =
        elim (Bool-cases (sleeps_at addr t.t_sleepaddr)) [
          | inl match ↦ wake_case fuel i addr p t s pre ps r e n live match (omega arith) (
              loop-Woken fuel i addr (readied i p s) pre ps r
                (L.remove-items s.sleepers i
                    (omega (arith, index_lt L s.sleepers pre ps p i e n, L.getnum s.sleepers))
                  ∙ ap (λ l. remove_nth l i) e
                  ∙ remove_nth-middle pre ps p i n)
                n (omega arith) a
                (omega (
                  arith,
                  ap length
                      (L.addtail-items s.runqueue p (L.addtail_code s.runqueue p (omega arith))),
                  length-append (P.q_items s.runqueue) (p ∷ []),
                  L.addtail-room s.runqueue p,
                )))
          | inr no_match ↦ keep_case fuel i addr p t s pre ps e n live no_match (
              loop-Woken fuel (i + 1) addr s (pre ++ p ∷ []) ps r
                (e ∙ sym (append_assoc pre (p ∷ []) ps)) (omega (arith, length-append pre (p ∷ [])))
                (omega arith) a (omega arith))
        ]

    -- `thread_wakeup`, called at a raised level, with the sleepers allocated and with space on the
    -- run queue for all of them, returns, and no assertion fails. It moves the threads that sleep
    -- at the address from the sleepers to the end of the run queue, both in their order, and
    -- changes nothing else.
    pub thread_wakeup_lem :
        (addr : ℕ) (s : Sys P)
        → spl_raised s.cpu ≡ true
        → All (IsLive s.heap) (P.items s.sleepers)
        → length (P.q_items s.runqueue) + length (P.items s.sleepers) ≤ P.q_room s.runqueue
        → Woken s
            (kept s.heap addr (P.items s.sleepers))
            (woken s.heap addr (P.items s.sleepers))
            (thread_wakeup P addr s)
    unfolding thread_wakeup
    thread_wakeup_lem addr s r a c = rw r (
        loop-Woken (P.array_getnum s.sleepers + 1) 0 addr s [] (P.items s.sleepers) r refl refl
          (omega (arith, L.getnum s.sleepers)) a c)
