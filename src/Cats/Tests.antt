-- ===== src/Cats/Tests.antt =====
-- What the theorems about the drivers of Projects/OS161/kern/asst1/catsem.c and catlock.c say of the
-- system of Thread/Example.
use windborne.Base.{ℕ, ◌≡◌, refl, List, [], ◌∷◌, some, Outcome, ok}
use windborne.Spl.{splx, splhigh}
use windborne.Thread.Scheduler.{make_runnable}
use windborne.Platform.Bounded.{bounded, bounded-Laws}
use windborne.Thread.State.{Sys}
use windborne.Thread.Fork.{
  fpt_initialize, create_table, thread_create, fork_done, fork_fail, fork_run, fork_queue,
  fork_zombies, fork_sleepers, fork_stack, thread_fork,
}
use windborne.Thread.Example.{runner}
use windborne.Cats.Drivers.{fork_loop, catmousesem}
use windborne.Cats.Starting.{Started, catmousesem_lem}
use windborne.Cats.Example.{allocate, allocate-IsFresh, roomy, roomy-Inv}

catmousesem_lem_example :
    Started allocate 1
      (some 9)
      "catsem Thread"
      700
      "mousesem Thread"
      800
      roomy
      (catmousesem bounded allocate 700 800 roomy)
catmousesem_lem_example =
    catmousesem_lem bounded-Laws allocate allocate-IsFresh 1 roomy runner refl roomy-Inv 700 800

abbrev ready : Outcome (ℕ × Sys bounded) → List ℕ
ready (ok r) = (r.1).runqueue.held
ready o = []

-- The six cats and the two mice are behind the thread that was ready.
eight_ready :
    ready (catmousesem bounded allocate 700 800 roomy)
    ≡ 2 ∷ 13 ∷ 14 ∷ 15 ∷ 16 ∷ 17 ∷ 18 ∷ 19 ∷ 20 ∷ []
unfolding catmousesem fork_loop thread_fork thread_create create_table fpt_initialize fork_stack
    fork_sleepers fork_zombies fork_queue fork_run fork_done fork_fail make_runnable splhigh splx
eight_ready = refl
