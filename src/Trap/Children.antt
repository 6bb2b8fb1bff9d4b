-- ===== src/Trap/Children.antt =====
-- How the child of a fork enters user mode, in `md_forkentry` of
-- Projects/OS161/kern/mips/syscall.c.
use windborne.Base.{
  ℕ, ◌%◌, ◌^◌, ◌<◌, ◌≡◌, ◌≢◌, refl, ◌∙◌, ◌⊎◌, inl, inr, ◌∷◌, some, set, get_elem?, length, Outcome,
  ok, panic, assertion, bad_pointer, arith, true, false, Bool-cases, get_elem?-set_self,
  get_elem?-set_ne, ltb,
}
use windborne.Base.Int.{pos}
use windborne.Spl.{splhigh}
use windborne.Platform.{Platform}
use windborne.Thread.State.{Thread, update, as_activate}
use windborne.Thread.Resuming.{update_self, update_other}
use windborne.Trap.Handler.{Exception, Port, mips_usermode}
use windborne.Trap.Entering.{
  Entry, data_offset, pointer, to_pid, child_of, child_tf, store_process, md_forkentry,
}

module _ {P : Platform} (H : Port (Entry P)) (tf data1 newpid cur : ℕ) (t : Thread)
    (s : Entry P) where
  -- The child `cur` is about to leave for user mode.
  pub record Entered (o : Outcome (Exception × Entry P)) : Type 0 where
    pub frame : Exception
    pub after : Entry P
    pub result : o ≡ ok (frame, after)
    pub at_four : frame.frame.tf_epc ≡ 4
    pub returns_zero : (frame.frame.tf_v0 ≡ pos 0) × (frame.frame.tf_a3 ≡ pos 0)
    pub registers :
        (frame.frame.tf_a0 ≡ (s.frame_at data1).frame.tf_a0)
        × (frame.frame.tf_a1 ≡ (s.frame_at data1).frame.tf_a1)
        × (frame.frame.tf_a2 ≡ (s.frame_at data1).frame.tf_a2)
        × (frame.tf_sp ≡ (s.frame_at data1).tf_sp)
    pub thread : Thread
    pub child : after.sys.heap cur ≡ some thread
    pub number : thread.pid ≡ pos newpid
    pub parent : thread.parent ≡ pointer (data_offset data1 2)
    pub space : thread.t_vmspace ≡ pointer (data_offset data1 1)
    pub same_context : (thread.t_pcb ≡ t.t_pcb) × (thread.t_stack ≡ t.t_stack)
    pub same_place : (thread.t_name ≡ t.t_name) × (thread.t_cwd ≡ t.t_cwd)
    pub others : (p : ℕ) → cur ≢ p → after.sys.heap p ≡ s.sys.heap p
    pub entry : get_elem? after.sys.full_process_table newpid ≡ some (some cur)
    pub entries :
        (i : ℕ)
        → newpid ≢ i
        → get_elem? after.sys.full_process_table i ≡ get_elem? s.sys.full_process_table i
    pub closed : (after.sys.cpu.curspl ≡ pos 0) × (after.sys.cpu.status % 2 ≡ 0)
    pub twice : after.freed ≡ data1 ∷ data1 ∷ s.freed

  -- The process number is an entry of the table.
  abbrev pub IsListed : Type 0
  IsListed = (newpid < length s.sys.full_process_table) × (newpid < 2 ^ 31)

  -- The ends of a call.
  abbrev pub Enters : Outcome (Exception × Entry P) → Type 0
  Enters o =
      (IsListed × (H.same_stack tf s ≡ true) × Entered o)
      ⊎ ((IsListed × (H.same_stack tf s ≡ false) × (o ≡ panic assertion))
          ⊎ ((IsListed → ⊥) × (o ≡ panic bad_pointer)))

  -- The assertion on the stack reads `curkstack` only.
  abbrev pub ReadsStack : Type 0
  ReadsStack =
      (k : Entry P) → k.sys.curkstack ≡ s.sys.curkstack → H.same_stack tf k ≡ H.same_stack tf s

  module _ (h : 0 < H.spl_high) (running : s.sys.curthread ≡ some cur)
      (live : s.sys.heap cur ≡ some t) (reads : ReadsStack) where
    stored :
        IsListed
        → store_process H (to_pid newpid) cur s.sys.full_process_table
          ≡ ok (set s.sys.full_process_table newpid (some cur))
    unfolding store_process
    stored (inside, small) =
        let fits : ltb newpid (2 ^ 31) ≡ true = ground arith in
        let there : ltb newpid (length s.sys.full_process_table) ≡ true = ground arith in
        rw (fits, there) refl

    not_stored :
        (IsListed → ⊥)
        → store_process H (to_pid newpid) cur s.sys.full_process_table ≡ panic bad_pointer
    unfolding store_process
    not_stored n = elim (Bool-cases (ltb newpid (2 ^ 31))) [
      | inl fits ↦ elim (Bool-cases (ltb newpid (length s.sys.full_process_table))) [
        | inl there ↦ absurd (n (ground arith, ground arith))
        | inr beyond ↦ rw (fits, beyond) refl
      ]
      | inr large ↦ rw large refl
    ]

    enters : IsListed → H.same_stack tf s ≡ true → Entered (md_forkentry H tf data1 newpid s)
    unfolding md_forkentry mips_usermode splhigh
    enters (inside, small) on_stack =
        let fits : ltb newpid (2 ^ 31) ≡ true = ground arith in
        let on_its_stack : (k : Entry P)
            → k.sys.curkstack ≡ s.sys.curkstack
            → H.same_stack tf k ≡ true =
          λ k e. reads k e ∙ on_stack in
        let closed = (splhigh H.spl_high s.sys.cpu).1 in
        record {
          frame = child_tf H tf data1 s;
          after = record s {
            sys = record (s.sys) {
              cpu = record closed { curspl = pos 0 };
              heap = update s.sys.heap cur (some (child_of H data1 newpid t));
              full_process_table = set s.sys.full_process_table newpid (some cur);
              calls = as_activate (data_offset data1 1) ∷ s.sys.calls;
            };
            freed = data1 ∷ data1 ∷ s.freed;
          };
          result = rw (running, live, stored (inside, small), on_its_stack) refl;
          at_four = refl;
          returns_zero = (refl, refl);
          registers = (refl, refl, refl, refl);
          thread = child_of H data1 newpid t;
          child = update_self s.sys.heap cur (some (child_of H data1 newpid t));
          number = rw fits refl;
          parent = refl;
          space = refl;
          same_context = (refl, refl);
          same_place = (refl, refl);
          others = λ p n. update_other s.sys.heap cur (some (child_of H data1 newpid t)) p n;
          entry = get_elem?-set_self s.sys.full_process_table newpid (some cur) inside;
          entries = λ i n. get_elem?-set_ne s.sys.full_process_table (some cur) n;
          closed = (refl, ground arith);
          twice = refl;
        }

    -- `md_forkentry`, in a thread that runs, with SPL_HIGH positive, has one of three ends. Where
    -- the process number is no entry of the process table, it stores outside of the table. Where it
    -- is one, and the local frame is not on the stack of the thread, the assertion fails. Otherwise
    -- the thread gets to `asm_usermode`: with a frame whose program counter is 4, whatever was
    -- saved, whose results are 0, and whose argument registers and stack pointer are those saved;
    -- with the process number, data1 + 1 as its address space and data1 + 2 as its parent, and
    -- stack, context, name and directory as they were; with its own entry of the process table, no
    -- other entry and no other thread having changed; at level 0 with interrupts disabled; and
    -- `data1` has been released twice.
    pub md_forkentry_lem : Enters (md_forkentry H tf data1 newpid s)
    unfolding md_forkentry mips_usermode
    md_forkentry_lem = elim (Bool-cases (ltb newpid (2 ^ 31))) [
      | inr large ↦ outside (λ l. ground (arith, large, l.1))
      | inl fits ↦ elim (Bool-cases (ltb newpid (length s.sys.full_process_table))) [
        | inr beyond ↦ outside (λ l. ground (arith, beyond, l.0))
        | inl there ↦ listed (ground arith, ground arith) (Bool-cases (H.same_stack tf s))
      ]
    ]
      where
        outside : (IsListed → ⊥) → Enters (md_forkentry H tf data1 newpid s)
        outside n = inr (inr (n, rw (running, live, not_stored n) refl))

        listed :
            IsListed
            → (H.same_stack tf s ≡ true) ⊎ (H.same_stack tf s ≡ false)
            → Enters (md_forkentry H tf data1 newpid s)
        listed l (inl on_stack) = inl (l, on_stack, enters l on_stack)
        listed l (inr off) =
            let off_its_stack : (k : Entry P)
                → k.sys.curkstack ≡ s.sys.curkstack
                → H.same_stack tf k ≡ false =
              λ k e. reads k e ∙ off in
            inr (inl (l, off, rw (running, live, stored l, off_its_stack) refl))
