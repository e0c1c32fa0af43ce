-- ===== src/Vm/Ownership/Mappings.antt =====
-- `resolve_page_fault` and the mappings, and the invariant.
use gpu_vmm.Prelude.{ℕ, Bool, false, Bool-cases, Option-cases, inl, inr, Returns}
use gpu_vmm.Common.Address.{vaddr_to_vpn}
use gpu_vmm.PageTable.{lookup_entry}
use gpu_vmm.Vm.State.{World, Vm}
use gpu_vmm.Vm.Fault.{make_cpu_resident, resolve_page_fault, map_to_cpu, map_to_gpu}
use gpu_vmm.Vm.Ownership.Valid.{IsValid, Keeps, Keeps-refl}
use gpu_vmm.Vm.Ownership.Resident.{make_gpu_resident-Keeps, make_cpu_resident-Keeps}

-- On a valid manager `resolve_page_fault`, for any page, on the CPU or on the GPU, ends without a fault of the
-- program in a valid manager; no page loses its entry, its CPU address or its residency on the CPU, and no byte
-- of the memory changes.
pub resolve_page_fault-Keeps :
    (w : World) (s : Vm) (vpn : ℕ) (access_gpu : Bool)
    → IsValid s
    → Returns (resolve_page_fault w s vpn access_gpu) (Keeps s)
unfolding resolve_page_fault
resolve_page_fault-Keeps w s vpn access_gpu v =
    elim (Option-cases (lookup_entry s.page_table vpn)) [
      | inl e ↦ (s, rw (e, resolve_page_fault), Keeps-refl s v)
      | inr (x, e) ↦ elim (Bool-cases access_gpu) [
        | inl gpu ↦
            let (u, run, k) = make_gpu_resident-Keeps w s vpn x v e in
            (u, rw (e, resolve_page_fault, gpu) run, k)
        | inr cpu ↦ (
          make_cpu_resident w s vpn x,
          rw (e, resolve_page_fault, cpu),
          make_cpu_resident-Keeps w s vpn x v e,
        )
      ]
    ]

-- On a valid manager `map_to_gpu` of any address, with the allocation, eviction and migration that it makes, ends
-- without a fault in a valid manager; no page loses its entry, its CPU address or its residency on the CPU, and
-- no byte of the memory changes.
pub map_to_gpu-Keeps :
    (w : World) (s : Vm) (vaddr : ℕ) → IsValid s → Returns (map_to_gpu w s vaddr) (Keeps s)
unfolding map_to_gpu
map_to_gpu-Keeps w s vaddr v =
    let vpn = vaddr_to_vpn vaddr s.config.page_size in
    elim (Option-cases (lookup_entry s.page_table vpn)) [
      | inl e ↦ (s, rw (e, map_to_gpu), Keeps-refl s v)
      | inr (x, e) ↦
          let (u, run, k) = make_gpu_resident-Keeps w s vpn x v e in (u, rw (e, map_to_gpu) run, k)
    ]

pub map_to_cpu-Keeps :
    (w : World) (s : Vm) (vaddr : ℕ) → IsValid s → Returns (map_to_cpu w s vaddr) (Keeps s)
unfolding map_to_cpu
map_to_cpu-Keeps w s vaddr v =
    let vpn = vaddr_to_vpn vaddr s.config.page_size in
    elim (Option-cases (lookup_entry s.page_table vpn)) [
      | inl e ↦ (s, rw (e, map_to_cpu), Keeps-refl s v)
      | inr (x, e) ↦ elim (Bool-cases x.resident_on_cpu) [
        | inl there ↦ (s, rw (e, map_to_cpu, there), Keeps-refl s v)
        | inr away ↦
            let (u, run, k) = resolve_page_fault-Keeps w s vpn false v in
            (u, rw (e, map_to_cpu, away) run, k)
      ]
    ]
