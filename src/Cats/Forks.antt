-- ===== src/Cats/Forks.antt =====
-- What the fork loops of Projects/OS161/kern/asst1/catsem.c and catlock.c leave, and where they
-- panic.
use windborne.Base.{
  ℕ, zero, suc, ◌+◌, ◌<◌, ◌≡◌, ◌≢◌, refl, sym, ap, ◌∙◌, ◌⊎◌, inl, inr, List, [], ◌∷◌, ◌++◌,
  append_assoc, append-nil, Option, none, some, String, Outcome, ok, panic, panicked, arith, length,
  length-append,
}
use windborne.Platform.{Platform, Laws}
use windborne.Thread.State.{Thread, Sys}
use windborne.Thread.Fork.{Memory, thread_fork}
use windborne.Thread.Invariant.{Inv}
use windborne.Thread.Resuming.{update_other, update_self}
use windborne.Thread.ForkBranches.{Forked}
use windborne.Thread.Creation.{IsFresh, child, get_stack, thread_fork_lem}
use windborne.Thread.Population.{Forked-Inv}
use windborne.Cats.Drivers.{fork_loop}

-- The threads at `ps` start `func` with the numbers from `index` on, in the directory `cwd`.
abbrev pub AreChildren : {P : Platform} → String → Option ℕ → ℕ → ℕ → List ℕ → Sys P → Type 0
AreChildren name cwd func index [] s = Unit
AreChildren {P} name cwd func index (p ∷ ps) s =
    ((stack : ℕ) × (s.heap p ≡ some (child P.stack_size name cwd stack 0 index func)))
    × AreChildren name cwd func (index + 1) ps s

-- `s` is `s0` with the threads `ps` behind all others that are ready.
pub record Extends {P : Platform} (s0 : Sys P) (ps : List ℕ) (s : Sys P) : Type 0 where
  pub heap : (q : ℕ) (t : Thread) → s0.heap q ≡ some t → s.heap q ≡ some t
  pub ready : P.q_items s.runqueue ≡ P.q_items s0.runqueue ++ ps
  pub asleep : P.items s.sleepers ≡ P.items s0.sleepers
  pub dead : P.items s.zombies ≡ P.items s0.zombies
  pub numthreads : s.numthreads ≡ s0.numthreads + length ps

-- One of the `n` calls of `thread_fork` of a loop that begins in `s0` fails: the rounds before it
-- have come to `s`, and the call that is then due returns an error.
abbrev pub AForkFails : {P : Platform} → (Sys P → Memory) → ℕ → ℕ → ℕ → String → ℕ → Sys P → Type 0
AForkFails {P} allocate cur n index name func s0 =
    (j : ℕ) × (s : Sys P) × (code : ℕ) × (s' : Sys P) × (j < n)
    × (fork_loop P allocate j index name func s0 ≡ ok s)
    × Inv P cur s
    × (thread_fork P (allocate s) name 0 (index + j) func s ≡ ok (code, none, s'))
    × (code ≢ 0)

-- The two ends of a loop.
abbrev pub LoopEnds :
    {P : Platform}
    → (Sys P → Memory)
    → ℕ
    → Option ℕ
    → ℕ
    → ℕ
    → String
    → ℕ
    → Sys P
    → Outcome (Sys P)
    → Type 0
LoopEnds {P} allocate cur cwd n index name func s0 o =
    ((s : Sys P) × (ps : List ℕ) × (o ≡ ok s)
      × (length ps ≡ n)
      × Extends s0 ps s
      × AreChildren name cwd func index ps s
      × Inv P cur s)
    ⊎ (o ≡ panic panicked) × AForkFails allocate cur n index name func s0

module _ {P : Platform} where
  pub same_Extends : (s : Sys P) → Extends s [] s
  same_Extends s = record {
    heap = λ q t e. e;
    ready = sym (append-nil (P.q_items s.runqueue));
    asleep = refl;
    dead = refl;
    numthreads = omega arith;
  }

  pub Extends-trans :
      (s0 s1 s2 : Sys P) (ps qs : List ℕ)
      → Extends s0 ps s1
      → Extends s1 qs s2
      → Extends s0 (ps ++ qs) s2
  Extends-trans s0 s1 s2 ps qs a b = record {
    heap = λ q t e. b.heap q t (a.heap q t e);
    ready = b.ready ∙ ap (λ l. l ++ qs) a.ready ∙ append_assoc (P.q_items s0.runqueue) ps qs;
    asleep = b.asleep ∙ a.asleep;
    dead = b.dead ∙ a.dead;
    numthreads = omega (arith, a.numthreads, b.numthreads, length-append ps qs);
  }

  -- Threads that are there stay what they are.
  pub AreChildren-Extends :
      (name : String) (cwd : Option ℕ) (func index : ℕ) (ps qs : List ℕ) (s1 s2 : Sys P)
      → Extends s1 qs s2
      → AreChildren name cwd func index ps s1
      → AreChildren name cwd func index ps s2
  AreChildren-Extends name cwd func index [] qs s1 s2 e a = tt
  AreChildren-Extends name cwd func index (p ∷ ps) qs s1 s2 e ((stack, h), a) =
      ((stack, e.heap p _ h), AreChildren-Extends name cwd func (index + 1) ps qs s1 s2 e a)

  Forked-Extends :
      (s0 : Sys P) (p : ℕ) (t : Thread) (s : Sys P)
      → s0.heap p ≡ none
      → Forked s0 p t s
      → Extends s0 (p ∷ []) s
  Forked-Extends s0 p t s fresh f = record {
    heap = λ q u e.
        ap (λ h. h q) f.heap
        ∙ update_other s0.heap p (some t) q (λ same. cc (ap s0.heap same, fresh, e))
        ∙ e;
    ready = f.ready;
    asleep = f.asleep;
    dead = f.dead;
    numthreads = f.numthreads;
  }

  module _ (L : Laws P) (allocate : Sys P → Memory) (fresh : (s : Sys P) → IsFresh (allocate s) s)
      (cur : ℕ) (name : String) (func : ℕ) where
    round_ok :
        (n index : ℕ) (s s1 : Sys P) (ret : Option ℕ)
        → thread_fork P (allocate s) name 0 index func s ≡ ok (0, ret, s1)
        → fork_loop P allocate (suc n) index name func s
          ≡ fork_loop P allocate n (index + 1) name func s1
    unfolding fork_loop
    round_ok n index s s1 ret e = rw (fork_loop, e) refl

    round_fails :
        (n index code : ℕ) (s s1 : Sys P) (ret : Option ℕ)
        → thread_fork P (allocate s) name 0 index func s ≡ ok (code, ret, s1)
        → code ≢ 0
        → fork_loop P allocate (suc n) index name func s ≡ panic panicked
    unfolding fork_loop
    round_fails n index code s s1 ret e c = ground (arith, e)

    plus_zero : (i : ℕ) → i + 0 ≡ i
    plus_zero i = omega arith

    -- A failure behind the first round.
    later :
        (n index : ℕ) (s s1 : Sys P) (ret : Option ℕ)
        → thread_fork P (allocate s) name 0 index func s ≡ ok (0, ret, s1)
        → AForkFails allocate cur n (index + 1) name func s1
        → AForkFails allocate cur (suc n) index name func s
    later n index s s1 ret e (j, t, code, s', few, way, v, fails, c) =
        let shift : index + suc j ≡ index + 1 + j = omega arith in
        (
          suc j,
          t,
          code,
          s',
          omega arith,
          round_ok j index s s1 ret e ∙ way,
          v,
          ap (λ i. thread_fork P (allocate t) name 0 i func t) shift ∙ fails,
          c,
        )

    pub fork_loop_lem :
        (n index : ℕ) (s : Sys P) (me : Thread)
        → s.heap cur ≡ some me
        → Inv P cur s
        → LoopEnds allocate cur me.t_cwd n index name func s
            (fork_loop P allocate n index name func s)
    unfolding fork_loop
    fork_loop_lem zero index s me here v = inl (s, [], refl, refl, same_Extends s, tt, v)
    fork_loop_lem (suc n) index s me here v =
        let (code, ret, s1, result, end) =
          thread_fork_lem L (allocate s) name 0 index func s cur me here v (fresh s) in
        elim end [
          | inr (c, none_there, _) ↦ inr (
            round_fails n index code s s1 ret result c,
            (
              0,
              s,
              code,
              s1,
              omega arith,
              refl,
              v,
              ap (λ i. thread_fork P (allocate s) name 0 i func s) (plus_zero index)
                  ∙ result
                  ∙ ap (λ x. ok (code, x, s1)) none_there,
              c,
            ),
          )
          | inl (p, e, c, _, f) ↦
              let t =
                child P.stack_size name me.t_cwd (get_stack (allocate s).stack_at) 0 index func in
              let unused = (fresh s).fresh p e in
              let more = Forked-Extends s p t s1 unused f in
              let next = round_ok n index s s1 ret (result ∙ ap (λ x. ok (x, ret, s1)) c) in
              elim (fork_loop_lem n (index + 1) s1 me (more.heap cur me here)
                (Forked-Inv v p t unused s1 refl tt f)) [
                  | inl (s2, ps, o, count_ps, x, a, w) ↦ inl (
                    s2,
                    p ∷ ps,
                    next ∙ o,
                    omega (arith, count_ps),
                    Extends-trans s s1 s2 (p ∷ []) ps more x,
                    ((_, x.heap p t (ap (λ h. h p) f.heap ∙ update_self s.heap p (some t))), a),
                    w,
                  )
                  | inr (o, fails) ↦ inr (
                    next ∙ o,
                    later n index s s1 ret (result ∙ ap (λ x. ok (x, ret, s1)) c) fails,
                  )
                ]
        ]
