-- ===== src/Synch/Runs.antt =====
-- What a run of the threads does with one semaphore of Projects/OS161/kern/thread/synch.c: the calls
-- of `P` on it that have returned, the calls of `V`, and its destruction.
use windborne.Base.{ℕ, ◌+◌, ◌==◌, ◌&&◌, Bool, true, false, none, some, if◌then◌else◌}
use windborne.Platform.{Platform}
use windborne.Synch.State.{Synch, Resting, outside, in_proberen, in_acquire}
use windborne.Synch.Steps.{
  Step, probes, posts, acquires, releases, continues, yields, exits, forks, creates_sem,
  creates_lock, destroys_sem, destroys_lock, Reach, here, next,
}

-- What a step is called for.
pub data Label : Type 0 where
  calls_proberen calls_verhogen calls_destroy : (sem : ℕ) → Label
  goes_on other : Label

abbrev pub is_outside : Resting → Bool
is_outside outside = true
is_outside (in_proberen at spl) = false
is_outside (in_acquire at spl) = false

abbrev pub in_loop_of : ℕ → Resting → Bool
in_loop_of sem outside = false
in_loop_of sem (in_proberen at spl) = at == sem
in_loop_of sem (in_acquire at spl) = false

abbrev pub one_if : Bool → ℕ
one_if b = if b then 1 else 0

abbrev pub gives : ℕ → Label → ℕ
gives sem (calls_proberen a) = 0
gives sem (calls_verhogen a) = one_if (a == sem)
gives sem (calls_destroy a) = 0
gives sem goes_on = 0
gives sem other = 0

abbrev pub destroys : ℕ → Label → ℕ
destroys sem (calls_proberen a) = 0
destroys sem (calls_verhogen a) = 0
destroys sem (calls_destroy a) = one_if (a == sem)
destroys sem goes_on = 0
destroys sem other = 0

module _ {P : Platform} where
  abbrev pub label : {s s' : Synch P} → Step s s' → Label
  label (probes wakes sem o e) = calls_proberen sem
  label (posts sem o e) = calls_verhogen sem
  label (acquires wakes at o e) = other
  label (releases at o e) = other
  label (continues wakes e) = goes_on
  label (yields wakes t o e same) = other
  label (exits wakes t o room e same) = other
  label (forks m name data1 data2 func code ret t o k e same) = other
  label (creates_sem at b name n ret o fresh e) = other
  label (creates_lock at b name ret o fresh e) = other
  label (destroys_sem sem o e) = calls_destroy sem
  label (destroys_lock at o e) = other

  -- The thread that runs in `s` is outside of the loops in `s'`.
  abbrev pub returned : Synch P → Synch P → Bool
  returned s s' = elim s.sys.curthread [ none ↦ false | some me ↦ is_outside (s'.resting me) ]

  -- It is in the loop of a `P` on `sem`.
  abbrev pub resumes : ℕ → Synch P → Bool
  resumes sem s = elim s.sys.curthread [ none ↦ false | some me ↦ in_loop_of sem (s.resting me) ]

  -- A `P` on `sem` returns.
  abbrev pub takes : ℕ → Label → Synch P → Synch P → ℕ
  takes sem (calls_proberen a) s s' = one_if ((a == sem) && returned s s')
  takes sem (calls_verhogen a) s s' = 0
  takes sem (calls_destroy a) s s' = 0
  takes sem goes_on s s' = one_if (resumes sem s && returned s s')
  takes sem other s s' = 0

  -- How often each happens in a run.
  abbrev pub taken : ℕ → {s s' : Synch P} → Reach s s' → ℕ
  taken sem here = 0
  taken sem (next {t} {u} way step) = taken sem way + takes sem (label step) t u

  abbrev pub given : ℕ → {s s' : Synch P} → Reach s s' → ℕ
  given sem here = 0
  given sem (next way step) = given sem way + gives sem (label step)

  abbrev pub destroyed : ℕ → {s s' : Synch P} → Reach s s' → ℕ
  destroyed sem here = 0
  destroyed sem (next way step) = destroyed sem way + destroys sem (label step)
