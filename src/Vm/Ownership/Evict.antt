-- ===== src/Vm/Ownership/Evict.antt =====
-- Eviction from the GPU, and the invariant.
use gpu_vmm.Prelude.{
  ℕ, ◌≡◌, arith, refl, sym, ◌∙◌, ap, false, ◌&&◌, some, if◌then◌else◌, ◌==◌, Bool-cases,
  Option-cases, inl, inr, ok, ◌>>=◌, Returns,
}
use gpu_vmm.PageTable.{PageTableEntry, lookup_entry, write}
use gpu_vmm.Tlb
use gpu_vmm.Tlb.Invariant
use gpu_vmm.Tlb.View
use gpu_vmm.Policies.{ReplacementPolicy, ReplacementPolicy, lru, select_victim}
use gpu_vmm.Policies.Lru
use gpu_vmm.Vm.State.{World, Vm, charge_to_cpu}
use gpu_vmm.Vm.Fault.{is_empty, evict_entry, evict_victim, evict_page_from_gpu}
use gpu_vmm.Vm.Ownership.Table.{
  cpu_of, gpu_of, cpu_of-some, gpu_of-some, cpu_of-write_same, gpu_of-write,
}
use gpu_vmm.Vm.Ownership.Frames.{deallocate_gpu_page_config}
use gpu_vmm.Vm.Ownership.Transfer.{deallocate_gpu-Exclusive}
use gpu_vmm.Vm.Ownership.Extends.{Extends-refl, Extends-trans, write-Extends_plain}
use gpu_vmm.Vm.Ownership.Same.{charge_to_cpu-IsSame}
use gpu_vmm.Vm.Ownership.Valid.{
  IsLru, Keeps-trans, IsValid, Keeps, Keeps-refl, IsQuiet, IsQuiet-refl, IsQuiet-Keeps,
}

pub charge_to_cpu-IsQuiet :
    (w : World) (s : Vm) (vpn gpu cpu : ℕ) (x : PageTableEntry)
    → lookup_entry s.page_table vpn ≡ some x
    → cpu ≡ cpu_of s.page_table vpn
    → IsQuiet s (charge_to_cpu w s vpn gpu cpu)
charge_to_cpu-IsQuiet w s vpn gpu cpu x e own = record {
  same = charge_to_cpu-IsSame w s vpn gpu cpu x e own;
  allocator = unfold charge_to_cpu in refl;
  tlb = unfold charge_to_cpu in refl;
  policy = unfold charge_to_cpu in refl;
  fixed =
      unfold charge_to_cpu in
      record { config = refl; memory = refl; next_vpn = refl; allocations = refl };
}

-- The write-back of a dirty page.
abbrev written_back : World → Vm → ℕ → PageTableEntry → Vm
written_back w s victim e =
    if e.is_dirty && e.resident_on_cpu
    then charge_to_cpu w s victim e.gpu_address e.cpu_address
    else s

written_back-IsQuiet :
    (w : World) (s : Vm) (victim : ℕ) (e : PageTableEntry)
    → lookup_entry s.page_table victim ≡ some e
    → IsQuiet s (written_back w s victim e)
written_back-IsQuiet w s victim e h = elim (Bool-cases (e.is_dirty && e.resident_on_cpu)) [
  | inl dirty ↦ rw dirty (
      charge_to_cpu-IsQuiet w s victim e.gpu_address e.cpu_address e h
        (sym (cpu_of-some s.page_table victim e h)))
  | inr clean ↦ rw clean (IsQuiet-refl s)
]

-- An eviction keeps the manager valid, and gives no page a GPU address.
pub record Evicts (s u : Vm) : Type 0 where
  pub keeps : Keeps s u
  pub gpu : (v : ℕ) → gpu_of s.page_table v ≡ 0 → gpu_of u.page_table v ≡ 0

Evicts-refl : (s : Vm) → IsValid s → Evicts s s
Evicts-refl s v = record { keeps = Keeps-refl s v; gpu = λ j z. z }

evict_entry-Evicts :
    (w : World) (s : Vm) (victim : ℕ) (e : PageTableEntry)
    → IsValid s
    → lookup_entry s.page_table victim ≡ some e
    → Evicts s (evict_entry w s victim e)
unfolding evict_entry
evict_entry-Evicts w s victim e v h =
    let s₁ = written_back w s victim e in
    let q = written_back-IsQuiet w s victim e h in
    let k = IsQuiet-Keeps v s₁ q in
    let (x, found) = k.extends.present victim (e, h) in
    let mine : gpu_of s₁.page_table victim ≡ e.gpu_address =
      q.same.gpu victim ∙ gpu_of-some s.page_table victim e h in
    let f = λ (y : PageTableEntry). record y { gpu_address = 0; resident_on_gpu = false } in
    let t' = write f s₁.page_table victim in
    let less = gpu_of-write f s₁.page_table victim 0 x (λ y. refl) found in
    let more = write-Extends_plain f s₁.page_table victim (λ y on. on) (λ y. refl) in
    record {
      keeps = record {
        valid = record {
          exclusive = rw mine at (
              deallocate_gpu-Exclusive k.valid.exclusive t' victim less
                (cpu_of-write_same f s₁.page_table victim (λ y. refl)));
          tlb = k.valid.tlb;
          policy = k.valid.policy;
          page_size = rw (deallocate_gpu_page_config s₁.allocator e.gpu_address) k.valid.page_size;
          unused = λ j below. more.absent j (k.valid.unused j below);
          allocated = k.valid.allocated;
        };
        extends = Extends-trans k.extends more;
        fixed = record {
          config = k.fixed.config;
          memory = k.fixed.memory;
          next_vpn = k.fixed.next_vpn;
          allocations = k.fixed.allocations;
        };
      };
      gpu = λ j z. ground (arith, less j, q.same.gpu j);
    }

-- A new TLB that is valid too.
with_tlb-Evicts :
    (s u : Vm)
    → Evicts s u
    → (tlb : Tlb.Tlb) → Invariant.IsValid tlb
    → Evicts s (record u { tlb = tlb })
with_tlb-Evicts s u k tlb v = record {
  keeps = record {
    valid = record {
      exclusive = k.keeps.valid.exclusive;
      tlb = v;
      policy = k.keeps.valid.policy;
      page_size = k.keeps.valid.page_size;
      unused = k.keeps.valid.unused;
      allocated = k.keeps.valid.allocated;
    };
    extends = k.keeps.extends;
    fixed = record {
      config = k.keeps.fixed.config;
      memory = k.keeps.fixed.memory;
      next_vpn = k.keeps.fixed.next_vpn;
      allocations = k.keeps.fixed.allocations;
    };
  };
  gpu = k.gpu;
}

evict_victim-Evicts :
    (w : World) (s : Vm) (victim : ℕ) → IsValid s → Returns (evict_victim w s victim) (Evicts s)
unfolding evict_victim
evict_victim-Evicts w s victim v = elim (Bool-cases (victim == 0)) [
  | inl none_found ↦ (s, rw none_found, Evicts-refl s v)
  | inr found ↦ elim (Option-cases (lookup_entry s.page_table victim)) [
    | inl e ↦ (s, rw (found, e), Evicts-refl s v)
    | inr (x, e) ↦
        let s₁ = evict_entry w s victim x in
        let k = evict_entry-Evicts w s victim x v e in
        let (tlb, run, (valid, _)) = View.invalidate_lem s₁.tlb k.keeps.valid.tlb victim in
        (record s₁ { tlb = tlb }, rw (found, e, run), with_tlb-Evicts s s₁ k tlb valid)
  ]
]

-- Another state of the policy.
pub with_policy-Keeps :
    (s : Vm) (p : ReplacementPolicy)
    → IsLru p
    → IsValid s
    → Keeps s (record s { replacement_policy = p })
with_policy-Keeps s p is_lru v = record {
  valid = record {
    exclusive = v.exclusive;
    tlb = v.tlb;
    policy = is_lru;
    page_size = v.page_size;
    unused = v.unused;
    allocated = v.allocated;
  };
  extends = Extends-refl s.page_table;
  fixed = record { config = refl; memory = refl; next_vpn = refl; allocations = refl };
}

pub evict_page_from_gpu-Evicts :
    (w : World) (s : Vm) → IsValid s → Returns (evict_page_from_gpu w s) (Evicts s)
unfolding evict_page_from_gpu select_victim
evict_page_from_gpu-Evicts w s v = elim (Bool-cases (is_empty s.gpu_resident_pages)) [
  | inl none_there ↦ (s, rw none_there, Evicts-refl s v)
  | inr some_there ↦
      let (p, is_lru) = v.policy in
      let r = Lru.select_victim p in
      let s₁ = record s { replacement_policy = lru r.0 } in
      let victim = if r.1 == 0 then w.first s.gpu_resident_pages else r.1 in
      let chosen : select_victim s.replacement_policy ≡ ok (lru r.0, r.1) =
        ap select_victim is_lru in
      let l = with_policy-Keeps s (lru r.0) (r.0, refl) v in
      let (u, run, k) = evict_victim-Evicts w s₁ victim l.valid in
      (
        u,
        rw (some_there, chosen, ◌>>=◌) run,
        (record { keeps = Keeps-trans l k.keeps; gpu = k.gpu }),
      )
]

-- On a valid manager an eviction ends without a fault, whatever the victim, in a valid manager; no page loses its
-- entry, its CPU address or its residency on the CPU, and no byte of the memory changes.
pub evict_page_from_gpu-Keeps :
    (w : World) (s : Vm) → IsValid s → Returns (evict_page_from_gpu w s) (Keeps s)
evict_page_from_gpu-Keeps w s v =
    let (u, run, k) = evict_page_from_gpu-Evicts w s v in (u, run, k.keeps)
