-- ===== src/Cats/Drivers.antt =====
-- The drivers `catmousesem` and `catmouselock` of Projects/OS161/kern/asst1/catsem.c and catlock.c.
-- The functions of the cats and the mice are empty in the code, and only their addresses are used.
-- What `kmalloc` and `kstrdup` give to a call of `thread_fork` is a function of the state.
use windborne.Base.{
  ℕ, zero, suc, ◌+◌, ◌==◌, String, Outcome, ok, panic, panicked, ◌>>=◌, if◌then◌else◌,
}
use windborne.Platform.{Platform}
use windborne.Thread.State.{Sys}
use windborne.Thread.Fork.{Memory, thread_fork}

abbrev pub ncats : ℕ
ncats = 6

abbrev pub nmice : ℕ
nmice = 2

module _ (P : Platform) (allocate : Sys P → Memory) where
  -- The rounds that are left, and the index.
  unfoldable pub fork_loop : ℕ → ℕ → String → ℕ → Sys P → Outcome (Sys P)
  fork_loop zero index name func s = ok s
  fork_loop (suc n) index name func s = do
    (error, ret, s1) ← thread_fork P (allocate s) name 0 index func s
    if error == 0 then fork_loop n (index + 1) name func s1 else panic panicked

  -- The result of the driver, and the state.
  unfoldable pub catmousesem : ℕ → ℕ → Sys P → Outcome (ℕ × Sys P)
  catmousesem catsem mousesem s = do
    s1 ← fork_loop ncats 0 "catsem Thread" catsem s
    s2 ← fork_loop nmice 0 "mousesem Thread" mousesem s1
    ok (0, s2)

  unfoldable pub catmouselock : ℕ → ℕ → Sys P → Outcome (ℕ × Sys P)
  catmouselock catlock mouselock s = do
    s1 ← fork_loop ncats 0 "catlock thread" catlock s
    s2 ← fork_loop nmice 0 "mouselock thread" mouselock s1
    ok (0, s2)
