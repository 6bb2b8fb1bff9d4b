-- ===== src/Cats/Starting.antt =====
-- What `catmousesem` and `catmouselock` of Projects/OS161/kern/asst1/catsem.c and catlock.c start.
use windborne.Base.{
  ℕ, ◌≡◌, refl, ◌⊎◌, inl, inr, List, ◌++◌, Option, some, String, Outcome, ok, panic, panicked,
  ◌>>=◌, length,
}
use windborne.Platform.{Platform, Laws}
use windborne.Thread.State.{Thread, Sys}
use windborne.Thread.Fork.{Memory}
use windborne.Thread.Invariant.{Inv}
use windborne.Thread.Creation.{IsFresh}
use windborne.Cats.Drivers.{ncats, nmice, fork_loop, catmousesem, catmouselock}
use windborne.Cats.Forks.{
  AreChildren, Extends, Extends-trans, AreChildren-Extends, AForkFails, LoopEnds, fork_loop_lem,
}

-- The ends of a driver: all cats and behind them all mice are ready, or a fork failed.
abbrev pub Started :
    {P : Platform}
    → (Sys P → Memory)
    → ℕ
    → Option ℕ
    → String
    → ℕ
    → String
    → ℕ
    → Sys P
    → Outcome (ℕ × Sys P)
    → Type 0
Started {P} allocate cur cwd cat_name cat mouse_name mouse s0 o =
    ((s : Sys P) × (cats mice : List ℕ) × (o ≡ ok (0, s))
      × (length cats ≡ 6)
      × (length mice ≡ 2)
      × Extends s0 (cats ++ mice) s
      × AreChildren cat_name cwd cat 0 cats s
      × AreChildren mouse_name cwd mouse 0 mice s
      × Inv P cur s)
    ⊎ (o ≡ panic panicked)
      × (AForkFails allocate cur 6 0 cat_name cat s0
          ⊎ ((s : Sys P) × (fork_loop P allocate 6 0 cat_name cat s0 ≡ ok s)
              × AForkFails allocate cur 2 0 mouse_name mouse s))

module _ {P : Platform} (L : Laws P) (allocate : Sys P → Memory)
    (fresh : (s : Sys P) → IsFresh (allocate s) s) (cur : ℕ) (s : Sys P) (me : Thread)
    (here : s.heap cur ≡ some me) (v : Inv P cur s) where
  abbrev two_loops : String → ℕ → String → ℕ → Outcome (ℕ × Sys P)
  two_loops cat_name cat mouse_name mouse = do
    s1 ← fork_loop P allocate ncats 0 cat_name cat s
    s2 ← fork_loop P allocate nmice 0 mouse_name mouse s1
    ok (0, s2)

  mice_Started :
      (cat_name : String) (cat : ℕ) (mouse_name : String) (mouse : ℕ) (s1 : Sys P) (cats : List ℕ)
      → fork_loop P allocate ncats 0 cat_name cat s ≡ ok s1
      → length cats ≡ 6
      → Extends s cats s1
      → AreChildren cat_name me.t_cwd cat 0 cats s1
      → LoopEnds allocate cur me.t_cwd nmice 0 mouse_name mouse s1
          (fork_loop P allocate nmice 0 mouse_name mouse s1)
      → Started allocate cur me.t_cwd cat_name cat mouse_name mouse s
          (two_loops cat_name cat mouse_name mouse)
  mice_Started cat_name cat mouse_name mouse s1 cats o six x a (inl (s2, mice, o2, two, y, b, w)) =
      inl (
        s2,
        cats,
        mice,
        rw (o, o2) refl,
        six,
        two,
        Extends-trans s s1 s2 cats mice x y,
        AreChildren-Extends cat_name me.t_cwd cat 0 cats mice s1 s2 y a,
        b,
        w,
      )
  mice_Started cat_name cat mouse_name mouse s1 cats o six x a (inr (o2, fails)) =
      inr (rw (o, o2) refl, inr (s1, o, fails))

  two_loops-Started :
      (cat_name : String) (cat : ℕ) (mouse_name : String) (mouse : ℕ)
      → Started allocate cur me.t_cwd cat_name cat mouse_name mouse s
          (two_loops cat_name cat mouse_name mouse)
  two_loops-Started cat_name cat mouse_name mouse =
      elim (fork_loop_lem L allocate fresh cur cat_name cat 6 0 s me here v) [
        | inl (s1, cats, o, six, x, a, w) ↦
            mice_Started cat_name cat mouse_name mouse s1 cats o six x a
              (fork_loop_lem L allocate fresh cur mouse_name mouse 2 0 s1 me (x.heap cur me here) w)
        | inr (o, fails) ↦ inr (rw o refl, inl fails)
      ]

  -- `catmousesem`, called from the invariant, with an allocator that returns unused memory and has
  -- memory for the process table, and with no interrupt between its calls. Either it returns 0, and
  -- behind the threads that were ready there are six new threads at `catsem` with the numbers 0 to
  -- 5 and two at `mousesem` with the numbers 0 and 1, all in the caller's directory, while no other
  -- thread has changed and the invariant holds; or it panics, and one of its own calls of `thread_fork`,
  -- made in the state that its rounds before it have come to, has returned an error.
  pub catmousesem_lem :
      (catsem mousesem : ℕ)
      → Started allocate cur me.t_cwd "catsem Thread" catsem "mousesem Thread" mousesem s
          (catmousesem P allocate catsem mousesem s)
  unfolding catmousesem
  catmousesem_lem catsem mousesem =
      two_loops-Started "catsem Thread" catsem "mousesem Thread" mousesem

  -- `catmouselock` ends in the same two ways, with its own functions and names.
  pub catmouselock_lem :
      (catlock mouselock : ℕ)
      → Started allocate cur me.t_cwd "catlock thread" catlock "mouselock thread" mouselock s
          (catmouselock P allocate catlock mouselock s)
  unfolding catmouselock
  catmouselock_lem catlock mouselock =
      two_loops-Started "catlock thread" catlock "mouselock thread" mouselock
