-- ===== src/Trap/Syscalls.antt =====
-- `mips_syscall` of Projects/OS161/kern/mips/syscall.c. Registers hold 32-bit values: `tf_v0` and
-- `tf_a3` are stored as what the handler assigns to them, an `int`.
use windborne.Base.{
  ℕ, zero, suc, ◌+◌, ◌^◌, ◌%◌, ◌==◌, Bool, false, Outcome, ok, check, ◌>>=◌, ◌>>◌, if◌then◌else◌,
}
use windborne.Base.Int.{ℤ, pos, negsuc, ltb_ℤ, int_inc, int_neg}
use windborne.Spl.{is_zero}

-- The part of `struct trapframe` that the handler uses.
pub record Trapframe : Type 0 where
  pub tf_v0 : ℤ
  pub tf_a0 : ℕ
  pub tf_a1 : ℕ
  pub tf_a2 : ℕ
  pub tf_a3 : ℤ
  pub tf_epc : ℕ

-- The system calls themselves, on a kernel state `K`. Their code is outside of syscall.c.
pub record Handlers (K : Type 0) : Type 0 where
  pub curspl : K → ℤ
  pub sys_reboot : ℕ → K → Outcome (ℤ × K)
  pub write_char : ℕ → ℕ → K → Outcome K  -- kprintf of the character at an index of a buffer
  pub sys_getpid : K → Outcome (ℤ × K)
  pub sys_getppid : K → Outcome (ℤ × K)
  pub sys_execv : ℕ → ℕ → K → Outcome (ℤ × K)
  pub sys_fork : Trapframe → K → Outcome (ℤ × K)
  pub sys_waitpid : ℕ → ℕ → ℕ → K → Outcome (ℤ × ℤ × K)  -- the code and `*retval`
  pub sys__exit : ℕ → K → Outcome K
  pub unknown : ℤ → K → K  -- kprintf of an unknown call number

-- ENOSYS of kern/include/kern/errno.h
abbrev pub enosys : ℕ
enosys = 23

-- `callno == n` for the numbers of kern/include/kern/callno.h
abbrev pub is_call : ℕ → ℤ → Bool
is_call n (pos m) = m == n
is_call n (negsuc m) = false

module _ {K : Type 0} (H : Handlers K) where
  -- The characters of `SYS_write`: those that are left, and the index.
  unfoldable pub write_loop : ℕ → ℕ → ℕ → K → Outcome K
  write_loop zero i buf k = ok k
  write_loop (suc n) i buf k = H.write_char buf i k >>= write_loop n (i + 1) buf

  -- `retval` and `err` behind `sys_fork`.
  abbrev pub fork_result : ℤ × K → Outcome (ℤ × ℤ × K)
  fork_result (retval, k) =
      if ltb_ℤ retval (pos 0) then ok (int_neg retval, retval, k) else ok (pos 0, retval, k)

  -- The `switch`: `err`, `retval` and the state. `garbage` is what the uninitialized `err` holds; the
  -- case of `SYS_write` leaves it there.
  unfoldable pub dispatch : ℤ → Trapframe → K → Outcome (ℤ × ℤ × K)
  dispatch garbage tf k =
      if is_call 9 tf.tf_v0
      then (H.sys_reboot tf.tf_a0 k >>= λ r. ok (r.0, pos 0, r.1))
      else if is_call 6 tf.tf_v0
      then (write_loop tf.tf_a2 0 tf.tf_a1 k >>= λ k1. ok (garbage, pos 0, k1))
      else if is_call 11 tf.tf_v0
      then (H.sys_getpid k >>= λ r. ok (pos 0, int_inc r.0, r.1))
      else if is_call 32 tf.tf_v0
      then (H.sys_getppid k >>= λ r. ok (pos 0, int_inc r.0, r.1))
      else if is_call 1 tf.tf_v0
      then (H.sys_execv tf.tf_a0 tf.tf_a1 k >>= λ r. ok (r.0, pos 0, r.1))
      else if is_call 2 tf.tf_v0
      then (H.sys_fork tf k >>= fork_result)
      else if is_call 3 tf.tf_v0
      then (H.sys_waitpid tf.tf_a0 tf.tf_a1 tf.tf_a2 k >>= λ r. ok (r.0, r.1, r.2))
      else if is_call 0 tf.tf_v0
      then (H.sys__exit tf.tf_a0 k >>= λ k1. ok (pos 0, pos 0, k1))
      else ok (pos enosys, pos 0, H.unknown tf.tf_v0 k)

  -- The registers that are given back.
  unfoldable pub give_back : ℤ → ℤ → Trapframe → Trapframe
  give_back err retval tf =
      record (if is_zero err
        then record tf { tf_v0 = retval; tf_a3 = pos 0 }
        else record tf { tf_v0 = err; tf_a3 = pos 1 }) { tf_epc = (tf.tf_epc + 4) % 2 ^ 32 }

  unfoldable pub mips_syscall : ℤ → Trapframe → K → Outcome (Trapframe × K)
  mips_syscall garbage tf k = do
    check (is_zero (H.curspl k))
    (err, retval, k1) ← dispatch garbage tf k
    check (is_zero (H.curspl k1))
    ok (give_back err retval tf, k1)
