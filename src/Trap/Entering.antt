-- ===== src/Trap/Entering.antt =====
-- `md_usermode` of Projects/OS161/kern/mips/trap.c and `md_forkentry` of kern/mips/syscall.c, each up
-- to the call of `asm_usermode`.
use windborne.Base.{
  ℕ, ◌+◌, ◌-◌, ◌^◌, ◌%◌, ◌==◌, ltb, List, ◌∷◌, Option, none, some, set, length, Outcome, ok, panic,
  bad_pointer, deref, ◌>>=◌, if◌then◌else◌,
}
use windborne.Base.Int.{ℤ, pos, negsuc}
use windborne.Platform.{Platform}
use windborne.Thread.State.{Thread, Sys, update, as_activate}
use windborne.Trap.Interrupts.{Context}
use windborne.Trap.Handler.{Exception, Port, mips_usermode}

-- A frame of zeros but for what `md_usermode` stores. `user_status` is CST_IRQMASK | CST_IEp |
-- CST_KUp of machine headers, and `address` that of the local `tf`.
abbrev pub first_frame : (user_status argc argv stack entry address : ℕ) → Exception
first_frame user_status argc argv stack entry address = record {
  frame = record {
    tf_v0 = pos 0;
    tf_a0 = argc;
    tf_a1 = argv;
    tf_a2 = 0;
    tf_a3 = pos 0;
    tf_epc = entry;
  };
  tf_cause = 0;
  tf_status = user_status;
  tf_vaddr = 0;
  tf_sp = stack;
  address = address;
}

unfoldable pub md_usermode :
    {K : Type 0}
    → Port K
    → (user_status argc argv stack entry address : ℕ) → Context K
    → Outcome (Exception × Context K)
md_usermode H user_status argc argv stack entry address s =
    mips_usermode H (first_frame user_status argc argv stack entry address) s

-- The thread system, the trap frame that an address is taken for, and the addresses that `kfree` was
-- called with, the last one first.
pub record Entry (P : Platform) : Type 0 where
  pub sys : Sys P
  pub frame_at : ℕ → Exception
  pub freed : List ℕ

-- `(unsigned long) data1 + n`
abbrev pub data_offset : ℕ → ℕ → ℕ
data_offset data1 n = (data1 + n) % 2 ^ 32

-- A number as a pointer.
abbrev pub pointer : ℕ → Option ℕ
pointer n = if n == 0 then none else some n

-- The cast to `pid_t`.
abbrev pub to_pid : ℕ → ℤ
to_pid n = if ltb n (2 ^ 31) then pos n else negsuc (2 ^ 32 - n - 1)

module _ {P : Platform} (H : Port (Entry P)) where
  -- The store to `full_process_table[curthread->pid]`; outside of the table it corrupts memory.
  unfoldable pub store_process : ℤ → ℕ → List (Option ℕ) → Outcome (List (Option ℕ))
  store_process (pos n) cur table =
      if ltb n (length table) then ok (set table n (some cur)) else panic bad_pointer
  store_process (negsuc n) cur table = panic bad_pointer

  -- What `curthread` points to, behind the stores.
  abbrev pub child_of : ℕ → ℕ → Thread → Thread
  child_of data1 newpid t = record t {
    t_vmspace = pointer (data_offset data1 1);
    pid = to_pid newpid;
    parent = pointer (data_offset data1 2);
  }

  -- `child_tf` at `tf`, a copy of what is at `data[0]`; `=+ 4` stores 4.
  abbrev pub child_tf : ℕ → ℕ → Entry P → Exception
  child_tf tf data1 s =
      let copy = s.frame_at data1 in
      record copy {
        frame = record (copy.frame) { tf_v0 = pos 0; tf_a3 = pos 0; tf_epc = 4 };
        address = tf;
      }

  unfoldable pub md_forkentry : ℕ → ℕ → ℕ → Entry P → Outcome (Exception × Entry P)
  unfolding store_process
  md_forkentry tf data1 newpid s = do
    cur ← deref s.sys.curthread
    t ← deref (s.sys.heap cur)
    table ← store_process (to_pid newpid) cur s.sys.full_process_table
    let s1 = record s {
      sys = record (s.sys) {
        heap = update s.sys.heap cur (some (child_of data1 newpid t));
        full_process_table = table;
        calls = as_activate (data_offset data1 1) ∷ s.sys.calls;
      };
      freed = data1 ∷ data1 ∷ s.freed;
    }
    r ← mips_usermode H (child_tf tf data1 s) (record { cpu = s1.sys.cpu; kernel = s1 })
    ok (r.0, record (r.1.kernel) { sys = record (r.1.kernel.sys) { cpu = r.1.cpu } })
