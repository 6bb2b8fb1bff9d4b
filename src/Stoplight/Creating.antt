-- ===== src/Stoplight/Creating.antt =====
-- `createvehicles` of Projects/OS161/kern/asst1/stoplight.c, which sets up the world of
-- Stoplight/World: the locks by `lock_create`, and the threads by `thread_fork`.
use windborne.Base.{ℕ, Bool, Option, Outcome, ok, ◌>>=◌}
use windborne.Base.Int.{ℤ, pos}
use windborne.Platform.{Platform}
use windborne.Thread.State.{Sys}
use windborne.Thread.Fork.{Memory}
use windborne.Synch.State.{Synch}
use windborne.Synch.Locks.{lock_create}
use windborne.Cats.Drivers.{fork_loop}
use windborne.Stoplight.World.{nvehicles}

-- The shared variables; `none` is NULL.
pub record Globals : Type 0 where
  pub lock_ab : Option ℕ
  pub lock_bc : Option ℕ
  pub lock_ca : Option ℕ
  pub tempy : Option ℕ
  pub tl_a : Option ℕ
  pub tl_b : Option ℕ
  pub tl_c : Option ℕ
  pub cars_a : ℤ
  pub cars_b : ℤ
  pub cars_c : ℤ

module _ (P : Platform) where
  -- The locks and the counters. `kmalloc i` is what the allocator gives to the call `i` of
  -- `lock_create`: the address of the lock, and whether there is memory for its name.
  unfoldable pub create_locks : (ℕ → Option ℕ × Bool) → Synch P → Outcome (Globals × Synch P)
  create_locks kmalloc s = do
    (ab, s1) ← lock_create P (kmalloc 0).0 (kmalloc 0).1 "AB" s
    (bc, s2) ← lock_create P (kmalloc 1).0 (kmalloc 1).1 "BC" s1
    (ca, s3) ← lock_create P (kmalloc 2).0 (kmalloc 2).1 "CA" s2
    (temp, s4) ← lock_create P (kmalloc 3).0 (kmalloc 3).1 "temp" s3
    (a, s5) ← lock_create P (kmalloc 4).0 (kmalloc 4).1 "truckA" s4
    (b, s6) ← lock_create P (kmalloc 5).0 (kmalloc 5).1 "truckB" s5
    (c, s7) ← lock_create P (kmalloc 6).0 (kmalloc 6).1 "truckC" s6
    ok (
      record {
        lock_ab = ab;
        lock_bc = bc;
        lock_ca = ca;
        tempy = temp;
        tl_a = a;
        tl_b = b;
        tl_c = c;
        cars_a = pos 0;
        cars_b = pos 0;
        cars_c = pos 0;
      },
      s7,
    )

  -- The result, the shared variables, and the state.
  unfoldable pub createvehicles :
      (Sys P → Memory) → (ℕ → Option ℕ × Bool) → ℕ → Synch P → Outcome (ℕ × Globals × Synch P)
  createvehicles allocate kmalloc approachintersection s = do
    (g, s1) ← create_locks kmalloc s
    sys ← fork_loop P allocate nvehicles 0 "approachintersection thread" approachintersection s1.sys
    ok (0, g, record s1 { sys = sys })
