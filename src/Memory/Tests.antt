-- ===== src/Memory/Tests.antt =====
-- What the theorems about memory say of the machine of Memory/Example.
use windborne.Base.{ℕ, ◌+◌, ◌*◌, ◌%◌, ◌<◌, ◌≤◌, ◌≡◌, refl, ◌⊎◌, arith, some, ok}
use windborne.Base.Int.{pos}
use windborne.Spl.{Cpu}
use windborne.Spl.Nesting.{IsConsistent}
use windborne.Memory.Machine.{Ram, Vm, AddrSpace}
use windborne.Memory.Ram.{ram_stealmem}
use windborne.Memory.AddrSpaces.{as_create, as_prepare_load, as_activate, align}
use windborne.Memory.Fault.{vm_fault}
use windborne.Memory.Stealing.{Stolen, ram_stealmem_lem}
use windborne.Memory.Loading.{Loads, total, placed, as_prepare_load_lem}
use windborne.Memory.Regions.{align_lem}
use windborne.Memory.Faults.{Faults, blank, as_activate_lem, vm_fault_lem}
use windborne.Memory.Example.{machine, machine-Laws}

abbrev cpu : Cpu
cpu = record { status = 1; curspl = pos 0; in_interrupt = pos 0 }

cpu-IsConsistent : IsConsistent cpu
cpu-IsConsistent = omega arith

abbrev ram : Ram
ram = record { firstpaddr = 8192; lastpaddr = 524288 }

abbrev vm : Vm
vm = record { cpu = cpu; ram = ram; tlb = λ j. record { ehi = 0; elo = 0 } }

abbrev segments : AddrSpace
segments = record as_create { as_vbase1 = 4096; as_npages1 = 3; as_vbase2 = 65536; as_npages2 = 2 }

abbrev loaded : AddrSpace
loaded = record segments { as_pbase1 = 8192; as_pbase2 = 20480; as_stackpbase = 28672 }

ram_stealmem_lem_example :
    ((524288 < 8192 + 3 * 4096) × (ram_stealmem machine 3 ram ≡ (0, ram)))
    ⊎ Stolen machine 3 ram (ram_stealmem machine 3 ram)
ram_stealmem_lem_example = ram_stealmem_lem machine 3 ram (omega arith)

as_prepare_load_lem_example :
    (o : ℕ × AddrSpace × Vm) × (as_prepare_load machine segments vm ≡ ok o)
    × Loads machine
        (omega arith)
        (total machine (omega arith) segments)
        vm
        (placed machine (omega arith) segments)
        o
as_prepare_load_lem_example =
    as_prepare_load_lem machine (omega arith) segments vm cpu-IsConsistent (omega arith)
      (omega arith) refl refl refl

align_lem_example :
    let (base, npages) = align machine 5000 9000 in
    (base % 4096 ≡ 0)
    × (base ≤ 5000)
    × (5000 + 9000 ≤ base + npages * 4096)
    × (base + npages * 4096 < 5000 + 9000 + 4096)
align_lem_example = align_lem machine machine-Laws 5000 9000 (omega arith) (omega arith)

as_activate_lem_example :
    ((j : ℕ) → j < 2 → (as_activate machine vm).tlb j ≡ blank machine j)
    × ((as_activate machine vm).cpu ≡ cpu)
    × ((as_activate machine vm).ram ≡ ram)
as_activate_lem_example = as_activate_lem machine machine-Laws vm cpu-IsConsistent

vm_fault_lem_example :
    Faults machine machine-Laws vm cpu-IsConsistent 5000 0 loaded refl
      (omega arith)
      (vm_fault machine 0 5000 (some loaded) vm)
vm_fault_lem_example =
    vm_fault_lem machine machine-Laws vm cpu-IsConsistent 5000 0 loaded refl (omega arith)
