-- ===== src/Synch/Mutex.antt =====
-- A lock of Projects/OS161/kern/thread/synch.c as those see it who use it: it is free, or it has an
-- owner.
use windborne.Base.{ℕ, ◌≡◌, ◌⊎◌, arith, Option, none, some, if◌then◌else◌}
use windborne.Synch.Locks.{same_pointer}

-- The owner behind a `lock_acquire` that returns.
abbrev pub take_lock : ℕ → Option ℕ → Option (Option ℕ)
take_lock me none = some (some me)
take_lock me (some p) = none

-- The owner behind a `lock_release`.
abbrev pub drop_lock : ℕ → Option ℕ → Option ℕ
drop_lock me o = if same_pointer o (some me) then none else o

-- What a step of thread `me` does to a lock: nothing, or it takes the lock, which is free, or it
-- gives it back.
abbrev pub Move : ℕ → Option ℕ → Option ℕ → Type 0
Move me o o' = (o' ≡ o) ⊎ (take_lock me o ≡ some o') ⊎ (drop_lock me o ≡ o')

pub drop_own : (me : ℕ) → drop_lock me (some me) ≡ none
drop_own me = ground arith
