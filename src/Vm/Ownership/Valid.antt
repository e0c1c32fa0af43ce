-- ===== src/Vm/Ownership/Valid.antt =====
-- The invariant of the manager, and what all its operations but `allocate`, `free` and `write_to_vaddr` keep.
use gpu_vmm.Prelude.{ℕ, ◌≡◌, ◌≤◌, refl, ◌∙◌, none, some}
use gpu_vmm.Prelude.Assoc.{find}
use gpu_vmm.PageTable.{lookup_entry}
use gpu_vmm.Tlb.Invariant
use gpu_vmm.Policies.{ReplacementPolicy, lru}
use gpu_vmm.Policies.Lru
use gpu_vmm.Vm.State.{Vm}
use gpu_vmm.Vm.Ownership.Frames.{Exclusive}
use gpu_vmm.Vm.Ownership.Extends.{Extends, Extends-refl, Extends-trans}
use gpu_vmm.Vm.Ownership.Same.{IsSame, IsSame-refl, IsSame-Exclusive}

abbrev pub IsLru : ReplacementPolicy → Type 0
IsLru p = (q : Lru.LruPolicy) × (p ≡ lru q)

-- A manager with the LRU policy and a valid TLB, whose frames in use correspond to the pages that have an address,
-- whose allocator has the configured page size, whose page numbers from `next_vpn` on are unused, and whose
-- allocations start at most there.
pub record IsValid (s : Vm) : Type 0 where
  pub exclusive : Exclusive s.allocator s.page_table
  pub tlb : Invariant.IsValid s.tlb
  pub policy : IsLru s.replacement_policy
  pub page_size : s.allocator.config.page_size ≡ s.config.page_size
  pub unused : (v : ℕ) → s.next_vpn ≤ v → lookup_entry s.page_table v ≡ none
  pub allocated :
      (vaddr start : ℕ) → find vaddr s.vaddr_to_vpn_map ≡ some start → start ≤ s.next_vpn

-- The configuration, the memory and the next page number are as before.
pub record IsFixed (s u : Vm) : Type 0 where
  pub config : u.config ≡ s.config
  pub memory : u.memory ≡ s.memory
  pub next_vpn : u.next_vpn ≡ s.next_vpn
  pub allocations : u.vaddr_to_vpn_map ≡ s.vaddr_to_vpn_map

pub IsFixed-refl : (s : Vm) → IsFixed s s
IsFixed-refl s = record { config = refl; memory = refl; next_vpn = refl; allocations = refl }

pub IsFixed-trans : {s u r : Vm} → IsFixed s u → IsFixed u r → IsFixed s r
IsFixed-trans k l = record {
  config = l.config ∙ k.config;
  memory = l.memory ∙ k.memory;
  next_vpn = l.next_vpn ∙ k.next_vpn;
  allocations = l.allocations ∙ k.allocations;
}

-- The new state is valid, and no page has lost its entry, its CPU address or its residency on the CPU.
pub record Keeps (s u : Vm) : Type 0 where
  pub valid : IsValid u
  pub extends : Extends s.page_table u.page_table
  pub fixed : IsFixed s u

pub Keeps-refl : (s : Vm) → IsValid s → Keeps s s
Keeps-refl s v = record { valid = v; extends = Extends-refl s.page_table; fixed = IsFixed-refl s }

pub Keeps-trans : {s u r : Vm} → Keeps s u → Keeps u r → Keeps s r
Keeps-trans k l = record {
  valid = l.valid;
  extends = Extends-trans k.extends l.extends;
  fixed = IsFixed-trans k.fixed l.fixed;
}

-- Pages from `next_vpn` on stay unused.
pub unused-Extends :
    {s : Vm}
    → IsValid s
    → (u : Vm) → Extends s.page_table u.page_table
    → IsFixed s u
    → (v : ℕ) → u.next_vpn ≤ v
    → lookup_entry u.page_table v ≡ none
unused-Extends v u e f j h = e.absent j (v.unused j (rw f.next_vpn at h))

-- Only the page table, the counters and the clock have changed, and no address.
pub record IsQuiet (s u : Vm) : Type 0 where
  pub same : IsSame s.page_table u.page_table
  pub allocator : u.allocator ≡ s.allocator
  pub tlb : u.tlb ≡ s.tlb
  pub policy : u.replacement_policy ≡ s.replacement_policy
  pub fixed : IsFixed s u

pub IsQuiet-refl : (s : Vm) → IsQuiet s s
IsQuiet-refl s = record {
  same = IsSame-refl s.page_table;
  allocator = refl;
  tlb = refl;
  policy = refl;
  fixed = IsFixed-refl s;
}

pub IsQuiet-Keeps : {s : Vm} → IsValid s → (u : Vm) → IsQuiet s u → Keeps s u
IsQuiet-Keeps {s} v u q = record {
  valid = record {
    exclusive = rw q.allocator (IsSame-Exclusive v.exclusive u.page_table q.same);
    tlb = rw q.tlb v.tlb;
    policy = rw q.policy v.policy;
    page_size = rw (q.allocator, q.fixed.config) v.page_size;
    unused = unused-Extends v u q.same.extends q.fixed;
    allocated = rw (q.fixed.allocations, q.fixed.next_vpn) v.allocated;
  };
  extends = q.same.extends;
  fixed = q.fixed;
}
