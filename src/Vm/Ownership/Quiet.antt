-- ===== src/Vm/Ownership/Quiet.antt =====
-- The steps that change flags and counters only.
use gpu_vmm.Prelude.{ℕ, ◌≡◌, refl, sym, true, Bool-cases, Option-cases, inl, inr}
use gpu_vmm.PageTable.{PageTableEntry, lookup_entry}
use gpu_vmm.Vm.State.{World, Vm, write_entry, charge_to_gpu}
use gpu_vmm.Vm.Fault.{migrate_in, migrate_back}
use gpu_vmm.Vm.Ownership.Table.{gpu_of, cpu_of-some, gpu_of-some}
use gpu_vmm.Vm.Ownership.Same.{write-IsSame, charge_to_gpu-IsSame}
use gpu_vmm.Vm.Ownership.Valid.{IsQuiet, IsQuiet-refl}
use gpu_vmm.Vm.Ownership.Evict.{charge_to_cpu-IsQuiet}

charge_to_gpu-IsQuiet :
    (w : World) (s : Vm) (vpn cpu gpu : ℕ)
    → gpu ≡ gpu_of s.page_table vpn
    → IsQuiet s (charge_to_gpu w s vpn cpu gpu)
charge_to_gpu-IsQuiet w s vpn cpu gpu own = record {
  same = charge_to_gpu-IsSame w s vpn cpu gpu own;
  allocator = unfold charge_to_gpu in refl;
  tlb = unfold charge_to_gpu in refl;
  policy = unfold charge_to_gpu in refl;
  fixed =
      unfold charge_to_gpu in
      record { config = refl; memory = refl; next_vpn = refl; allocations = refl };
}

pub write_entry-IsQuiet :
    (f : PageTableEntry → PageTableEntry) (s : Vm) (vpn : ℕ)
    → ((e : PageTableEntry) → (f e).cpu_address ≡ e.cpu_address)
    → ((e : PageTableEntry) → (f e).gpu_address ≡ e.gpu_address)
    → ((e : PageTableEntry) → e.resident_on_cpu ≡ true → (f e).resident_on_cpu ≡ true)
    → IsQuiet s (write_entry f s vpn)
write_entry-IsQuiet f s vpn c g flag = record {
  same = write-IsSame f s.page_table vpn c g flag;
  allocator = refl;
  tlb = refl;
  policy = refl;
  fixed = record { config = refl; memory = refl; next_vpn = refl; allocations = refl };
}

pub migrate_in-IsQuiet : (w : World) (s : Vm) (vpn : ℕ) → IsQuiet s (migrate_in w s vpn)
unfolding migrate_in
migrate_in-IsQuiet w s vpn = elim (Option-cases (lookup_entry s.page_table vpn)) [
  | inl e ↦ rw (e, migrate_in) (IsQuiet-refl s)
  | inr (x, e) ↦ elim (Bool-cases x.resident_on_cpu) [
    | inr off ↦ rw (e, migrate_in, off) (IsQuiet-refl s)
    | inl on ↦
        rw (e, migrate_in, on)
          (charge_to_gpu-IsQuiet w s vpn x.cpu_address x.gpu_address
            (sym (gpu_of-some s.page_table vpn x e)))
  ]
]

pub migrate_back-IsQuiet : (w : World) (s : Vm) (vpn : ℕ) → IsQuiet s (migrate_back w s vpn)
unfolding migrate_back
migrate_back-IsQuiet w s vpn = elim (Option-cases (lookup_entry s.page_table vpn)) [
  | inl e ↦ rw (e, migrate_back) (IsQuiet-refl s)
  | inr (x, e) ↦ elim (Bool-cases x.resident_on_gpu) [
    | inr off ↦ rw (e, migrate_back, off) (IsQuiet-refl s)
    | inl on ↦
        rw (e, migrate_back, on)
          (charge_to_cpu-IsQuiet w s vpn x.gpu_address x.cpu_address x e
            (sym (cpu_of-some s.page_table vpn x e)))
  ]
]
