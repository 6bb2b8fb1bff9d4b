-- ===== src/Memory/Loading.antt =====
-- What `as_prepare_load` of Projects/OS161/kern/mips/dumbvm.c allocates.
use windborne.Base.{
  ℕ, ◌+◌, ◌*◌, ◌^◌, ◌<◌, ◌≤◌, ◌≡◌, refl, sym, ap, ◌∙◌, ◌⊎◌, inl, inr, arith, ok, Bool-cases, ◌==◌,
  if◌then◌else◌, false,
}
use windborne.Spl.Nesting.{IsConsistent}
use windborne.Memory.Machine.{Machine, Ram, Vm, AddrSpace}
use windborne.Memory.Ram.{ram_stealmem, getppages}
use windborne.Memory.AddrSpaces.{enomem, prepare_stack, prepare_second, as_prepare_load}
use windborne.Memory.Stealing.{ram_stealmem_lem, getppages_lem}

module _ (M : Machine) (spl_pos : 0 < M.spl_high) where
  -- The memory behind an allocation.
  pub record Taken (size : ℕ) (r r' : Ram) : Type 0 where
    pub first : r'.firstpaddr ≡ r.firstpaddr + size
    pub last : r'.lastpaddr ≡ r.lastpaddr
    pub inside : r.firstpaddr + size ≤ r.lastpaddr

  pages_case :
      (n : ℕ) (v : Vm)
      → IsConsistent v.cpu
      → v.ram.firstpaddr + n * M.page_size < 2 ^ 32
      → ((v.ram.lastpaddr < v.ram.firstpaddr + n * M.page_size) × (getppages M n v ≡ (0, v)))
        ⊎ ((r : Ram) × (getppages M n v ≡ (v.ram.firstpaddr, record v { ram = r }))
            × Taken (n * M.page_size) v.ram r)
  pages_case n v k h = elim (ram_stealmem_lem M n v.ram h) [
    | inl (beyond, refused) ↦
        inl
          (beyond, getppages_lem M n v spl_pos k ∙ ap (λ o. (o.0, record v { ram = o.1 })) refused)
    | inr s ↦ inr (
      (ram_stealmem M n v.ram).1,
      getppages_lem M n v spl_pos k
          ∙ ap (λ a. (a, record v { ram = (ram_stealmem M n v.ram).1 })) s.address,
      record { first = s.first; last = s.last; inside = omega (arith, s.first, s.inside) },
    )
  ]

  positive : (x : ℕ) → 0 < x → (x == 0) ≡ false
  positive x h = ground arith

  -- An allocation is refused, or the rest of the function ends so.
  abbrev pub Loads : ℕ → Vm → (Ram → AddrSpace) → ℕ × AddrSpace × Vm → Type 0
  Loads size v full o =
      ((o.0 ≡ enomem)
        × (v.ram.lastpaddr < v.ram.firstpaddr + size)
        × (o.2.cpu ≡ v.cpu)
        × (o.2.tlb ≡ v.tlb))
      ⊎ ((r : Ram) × (o ≡ (0, full v.ram, record v { ram = r })) × Taken size v.ram r)

  stack_lem :
      (space : AddrSpace) (v : Vm)
      → IsConsistent v.cpu
      → 0 < v.ram.firstpaddr
      → v.ram.firstpaddr + 12 * M.page_size < 2 ^ 32
      → Loads
          (12 * M.page_size)
          v
          (λ r. record space { as_stackpbase = r.firstpaddr })
          (prepare_stack M space v)
  unfolding prepare_stack
  stack_lem space v k p h = elim (pages_case 12 v k h) [
    | inl (beyond, refused) ↦ inl (rw refused refl, beyond, rw refused refl, rw refused refl)
    | inr (r, given, t) ↦ inr (r, rw (given, positive v.ram.firstpaddr p) refl, t)
  ]

  second_lem :
      (space : AddrSpace) (v : Vm)
      → IsConsistent v.cpu
      → 0 < v.ram.firstpaddr
      → v.ram.firstpaddr + (space.as_npages2 * M.page_size + 12 * M.page_size) < 2 ^ 32
      → Loads
          (space.as_npages2 * M.page_size + 12 * M.page_size)
          v
          (λ r. record space {
            as_pbase2 = r.firstpaddr;
            as_stackpbase = r.firstpaddr + space.as_npages2 * M.page_size;
          })
          (prepare_second M space v)
  unfolding prepare_second
  second_lem space v k p h = elim (pages_case space.as_npages2 v k (omega arith)) [
    | inl (beyond, refused) ↦ inl (rw refused refl, omega arith, rw refused refl, rw refused refl)
    | inr (r, given, t) ↦
        let w = record v { ram = r } in
        elim (stack_lem (record space { as_pbase2 = v.ram.firstpaddr }) w k (omega (arith, t.first))
          (omega (arith, t.first))) [
            | inl (code, beyond, c, l) ↦ inl (
              rw (given, positive v.ram.firstpaddr p) code,
              omega (arith, t.first, t.last),
              rw (given, positive v.ram.firstpaddr p) c,
              rw (given, positive v.ram.firstpaddr p) l,
            )
            | inr (r', done, u) ↦ inr (
              r',
              rw (given, positive v.ram.firstpaddr p)
                  (done
                    ∙ ap
                        (λ f. (
                          0,
                          record space { as_pbase2 = v.ram.firstpaddr; as_stackpbase = f },
                          record v { ram = r' },
                        ))
                        t.first),
              record {
                first = omega (arith, t.first, u.first);
                last = u.last ∙ t.last;
                inside = omega (arith, t.first, t.last, u.inside);
              },
            )
          ]
  ]

  abbrev pub total : AddrSpace → ℕ
  total space = space.as_npages1 * M.page_size + (space.as_npages2 * M.page_size + 12 * M.page_size)

  -- The three parts one behind the other, from the first free page on.
  abbrev pub placed : AddrSpace → Ram → AddrSpace
  placed space r = record space {
    as_pbase1 = r.firstpaddr;
    as_pbase2 = r.firstpaddr + space.as_npages1 * M.page_size;
    as_stackpbase = r.firstpaddr + space.as_npages1 * M.page_size + space.as_npages2 * M.page_size;
  }

  module _ (space : AddrSpace) (v : Vm) (k : IsConsistent v.cpu) (p : 0 < v.ram.firstpaddr)
      (h : v.ram.firstpaddr + total space < 2 ^ 32) where
    load_steps :
        (o : ℕ × AddrSpace × Vm)
        → space.as_pbase1 ≡ 0
        → space.as_pbase2 ≡ 0
        → space.as_stackpbase ≡ 0
        → (if (getppages M space.as_npages1 v).0 == 0
            then (
              enomem,
              record space { as_pbase1 = (getppages M space.as_npages1 v).0 },
              (getppages M space.as_npages1 v).1,
            )
            else prepare_second M
                (record space { as_pbase1 = (getppages M space.as_npages1 v).0 })
                (getppages M space.as_npages1 v).1)
          ≡ o
        → as_prepare_load M space v ≡ ok o
    unfolding as_prepare_load
    load_steps o a b c e = elim (Bool-cases ((getppages M space.as_npages1 v).0 == 0)) [
      | inl x ↦ rw (sym e, x, a, b, c) refl
      | inr x ↦ rw (sym e, x, a, b, c) refl
    ]

    -- `as_prepare_load`, on an address space without physical pages, with the interrupt level and
    -- the enable bit in step, free memory that does not begin at address 0, and a sum of the parts
    -- that is a 32-bit address. It succeeds exactly where both segments and the twelve pages of
    -- stack fit into the free memory, and gives each its own pages, one part behind the other;
    -- otherwise it returns ENOMEM. The processor and the TLB are what they were. No assertion
    -- fails.
    pub as_prepare_load_lem :
        space.as_pbase1 ≡ 0
        → space.as_pbase2 ≡ 0
        → space.as_stackpbase ≡ 0
        → (o : ℕ × AddrSpace × Vm) × (as_prepare_load M space v ≡ ok o)
          × Loads (total space) v (placed space) o
    as_prepare_load_lem a b c = elim (pages_case space.as_npages1 v k (omega arith)) [
      | inl (beyond, refused) ↦ (
        (enomem, record space { as_pbase1 = 0 }, v),
        load_steps _ a b c (rw refused refl),
        inl (refl, omega arith, refl, refl),
      )
      | inr (r, given, t) ↦
          let w = record v { ram = r } in
          let space1 = record space { as_pbase1 = v.ram.firstpaddr } in
          (
            prepare_second M space1 w,
            load_steps _ a b c (rw (given, positive v.ram.firstpaddr p) refl),
            elim (second_lem space1 w k (omega (arith, t.first)) (omega (arith, t.first))) [
              | inl (code, beyond, l, m) ↦ inl (code, omega (arith, t.first, t.last), l, m)
              | inr (r', done, u) ↦ inr (
                r',
                done
                    ∙ ap
                        (λ f. (
                          0,
                          record space1 {
                            as_pbase2 = f;
                            as_stackpbase = f + space.as_npages2 * M.page_size;
                          },
                          record v { ram = r' },
                        ))
                        t.first,
                record {
                  first = omega (arith, t.first, u.first);
                  last = u.last ∙ t.last;
                  inside = omega (arith, t.first, t.last, u.inside);
                },
              )
            ],
          )
    ]
