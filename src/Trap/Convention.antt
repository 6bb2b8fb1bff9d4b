-- ===== src/Trap/Convention.antt =====
-- What `mips_syscall` of Projects/OS161/kern/mips/syscall.c does for each system call, by the calling
-- convention that it states.
use windborne.Base.{
  ℕ, ◌+◌, ◌^◌, ◌%◌, ◌==◌, ◌≡◌, ◌≢◌, refl, ap, ◌∙◌, subst, inl, inr, true, false, [], ◌∷◌, All, ok,
  arith, Bool-cases, if◌then◌else◌,
}
use windborne.Base.Int.{ℤ, pos, negsuc, int_inc, int_neg, ltb_ℤ}
use windborne.Spl.{is_zero}
use windborne.Trap.Syscalls.{
  Trapframe, Handlers, enosys, is_call, fork_result, dispatch, give_back, mips_syscall,
}

-- What the user gets: a result, or an error code.
pub data Reply : Type 0 where
  result error : (value : ℤ) → Reply

-- The answer of a call that gives an error code, 0 for none, beside its result.
abbrev pub answer : ℤ → ℤ → Reply
answer code value = if is_zero code then result value else error code

-- The call that the registers ask for, with the handler's answer and the state that it leaves. A
-- number that is none of the known ones is refused. For SYS_write, 6, nothing is said.
pub data Serves {K : Type 0} (H : Handlers K) (tf : Trapframe) (k : K) : Reply → K → Type 0 where
  exits :
      (k1 : K)
      → tf.tf_v0 ≡ pos 0
      → H.sys__exit tf.tf_a0 k ≡ ok k1
      → Serves H tf k (result (pos 0)) k1
  loads :
      (code : ℤ) (k1 : K)
      → tf.tf_v0 ≡ pos 1
      → H.sys_execv tf.tf_a0 tf.tf_a1 k ≡ ok (code, k1)
      → Serves H tf k (answer code (pos 0)) k1
  has_forked :
      (pid : ℕ) (k1 : K)
      → tf.tf_v0 ≡ pos 2
      → H.sys_fork tf k ≡ ok (pos pid, k1)
      → Serves H tf k (result (pos pid)) k1
  cannot_fork :
      (n : ℕ) (k1 : K)
      → tf.tf_v0 ≡ pos 2
      → H.sys_fork tf k ≡ ok (negsuc n, k1)
      → Serves H tf k (error (int_neg (negsuc n))) k1
  waits :
      (code status : ℤ) (k1 : K)
      → tf.tf_v0 ≡ pos 3
      → H.sys_waitpid tf.tf_a0 tf.tf_a1 tf.tf_a2 k ≡ ok (code, status, k1)
      → Serves H tf k (answer code status) k1
  reboots :
      (code : ℤ) (k1 : K)
      → tf.tf_v0 ≡ pos 9
      → H.sys_reboot tf.tf_a0 k ≡ ok (code, k1)
      → Serves H tf k (answer code (pos 0)) k1
  names_itself :
      (pid : ℤ) (k1 : K)
      → tf.tf_v0 ≡ pos 11
      → H.sys_getpid k ≡ ok (pid, k1)
      → Serves H tf k (result (int_inc pid)) k1
  names_parent :
      (pid : ℤ) (k1 : K)
      → tf.tf_v0 ≡ pos 32
      → H.sys_getppid k ≡ ok (pid, k1)
      → Serves H tf k (result (int_inc pid)) k1
  refuses :
      All (λ n. tf.tf_v0 ≢ pos n) (0 ∷ 1 ∷ 2 ∷ 3 ∷ 6 ∷ 9 ∷ 11 ∷ 32 ∷ [])
      → Serves H tf k (error (pos enosys)) (H.unknown tf.tf_v0 k)

-- The value and the flag that a reply is in the registers.
abbrev pub value_of : Reply → ℤ
value_of (result v) = v
value_of (error e) = e

abbrev pub flag_of : Reply → ℤ
flag_of (result v) = pos 0
flag_of (error e) = pos 1

-- The registers behind a call: the value in v0 and the flag in a3; the arguments stay, and the
-- program counter is one instruction on.
pub record Returns (tf : Trapframe) (reply : Reply) (tf' : Trapframe) : Type 0 where
  pub value : tf'.tf_v0 ≡ value_of reply
  pub flag : tf'.tf_a3 ≡ flag_of reply
  pub a0 : tf'.tf_a0 ≡ tf.tf_a0
  pub a1 : tf'.tf_a1 ≡ tf.tf_a1
  pub a2 : tf'.tf_a2 ≡ tf.tf_a2
  pub epc : tf'.tf_epc ≡ (tf.tf_epc + 4) % 2 ^ 32

negative : (n : ℕ) → ltb_ℤ (negsuc n) (pos 0) ≡ true
negative n = ground arith

negated : (n : ℕ) → is_zero (int_neg (negsuc n)) ≡ false
negated n = ground arith

not_call : (n : ℕ) (c : ℤ) → c ≢ pos n → is_call n c ≡ false
not_call n (pos m) h = differ m n (λ e. h (ap pos e))
  where
    differ : (a b : ℕ) → a ≢ b → (a == b) ≡ false
    differ a b g = ground arith
not_call n (negsuc m) h = refl

module _ {K : Type 0} (H : Handlers K) (tf : Trapframe) (k : K) (garbage : ℤ) where
  -- `err` and `retval` stand for a reply.
  abbrev Dispatches : Reply → K → Type 0
  Dispatches reply k1 =
      (err : ℤ) × (retval : ℤ) × (dispatch H garbage tf k ≡ ok (err, retval, k1))
      × (answer err retval ≡ reply)

  fork_steps :
      (retval : ℤ) (k1 : K)
      → tf.tf_v0 ≡ pos 2
      → H.sys_fork tf k ≡ ok (retval, k1)
      → dispatch H garbage tf k ≡ fork_result H (retval, k1)
  unfolding dispatch
  fork_steps retval k1 c e =
      rw
        (
          dispatch,
          ap (is_call 9) c,
          ap (is_call 6) c,
          ap (is_call 11) c,
          ap (is_call 32) c,
          ap (is_call 1) c,
          ap (is_call 2) c,
          e,
        )
        refl

  Serves-Dispatches : (reply : Reply) (k1 : K) → Serves H tf k reply k1 → Dispatches reply k1
  unfolding dispatch
  Serves-Dispatches _ k1 (exits _ c e) = (pos 0, pos 0, rw (dispatch, c, e) refl, refl)
  Serves-Dispatches _ k1 (loads code _ c e) = (code, pos 0, rw (dispatch, c, e) refl, refl)
  Serves-Dispatches _ k1 (has_forked pid _ c e) =
      (pos 0, pos pid, fork_steps (pos pid) k1 c e ∙ ground arith, refl)
  Serves-Dispatches _ k1 (cannot_fork n _ c e) = (
    int_neg (negsuc n),
    negsuc n,
    fork_steps (negsuc n) k1 c e ∙ rw (negative n) refl,
    rw (negated n) refl,
  )
  Serves-Dispatches _ k1 (waits code status _ c e) = (code, status, rw (dispatch, c, e) refl, refl)
  Serves-Dispatches _ k1 (reboots code _ c e) = (code, pos 0, rw (dispatch, c, e) refl, refl)
  Serves-Dispatches _ k1 (names_itself pid _ c e) =
      (pos 0, int_inc pid, rw (dispatch, c, e) refl, refl)
  Serves-Dispatches _ k1 (names_parent pid _ c e) =
      (pos 0, int_inc pid, rw (dispatch, c, e) refl, refl)
  Serves-Dispatches _ _ (refuses (n0, (n1, (n2, (n3, (n6, (n9, (n11, (n32, _))))))))) = (
    pos enosys,
    pos 0,
    rw
        (
          dispatch,
          not_call 9 _ n9,
          not_call 6 _ n6,
          not_call 11 _ n11,
          not_call 32 _ n32,
          not_call 1 _ n1,
          not_call 2 _ n2,
          not_call 3 _ n3,
          not_call 0 _ n0,
        )
        refl,
    refl,
  )

  give_back-Returns : (err retval : ℤ) → Returns tf (answer err retval) (give_back H err retval tf)
  unfolding give_back
  give_back-Returns err retval = elim (Bool-cases (is_zero err)) [
    | inl z ↦
        rw z (record { value = refl; flag = refl; a0 = refl; a1 = refl; a2 = refl; epc = refl })
    | inr z ↦
        rw z (record { value = refl; flag = refl; a0 = refl; a1 = refl; a2 = refl; epc = refl })
  ]

  -- A system call other than SYS_write, entered with interrupts on, whose handler returns and leaves
  -- them on: the handler of the number in v0 has been called with the arguments in a0 to a2, and
  -- the user gets its result in v0 and 0 in a3, or its error code in v0 and 1 in a3, whatever the
  -- uninitialized `err` holds. A negative result of sys_fork is an error, the results of sys_getpid
  -- and sys_getppid are one higher, and an unknown number is the error ENOSYS. The arguments are as
  -- they were, and the program counter is four bytes on.
  pub mips_syscall_lem :
      (reply : Reply) (k1 : K)
      → is_zero (H.curspl k) ≡ true
      → Serves H tf k reply k1
      → is_zero (H.curspl k1) ≡ true
      → (tf' : Trapframe) × (mips_syscall H garbage tf k ≡ ok (tf', k1)) × Returns tf reply tf'
  unfolding mips_syscall
  mips_syscall_lem reply k1 open_before served open_after =
      let (err, retval, done, same) = Serves-Dispatches reply k1 served in
      (
        give_back H err retval tf,
        rw (mips_syscall, open_before, done, open_after) refl,
        subst (λ r. Returns tf r (give_back H err retval tf)) same (give_back-Returns err retval),
      )
