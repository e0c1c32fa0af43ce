-- ===== src/Vm/Ownership/Prefetch.antt =====
-- The second loop of `allocate`: pages of the new range get GPU frames as long as there are some.
use gpu_vmm.Prelude.{
  subst, ℕ, suc, ◌+◌, ◌≤◌, ◌≡◌, ◌≢◌, refl, sym, ◌∙◌, ap, true, false, List, [], ◌∷◌, arith, ◌==◌,
  Bool-cases, Option-cases, inl, inr, ==→eq, length,
}
use gpu_vmm.Common.Words.{u64_mod, u64_add, u64_add_small}
use gpu_vmm.PageTable.{PageTable, PageTableEntry, lookup_entry, write, set_gpu_resident}
use gpu_vmm.PageTable.Range.{in_range}
use gpu_vmm.PageTable.Residency.{lookup-write}
use gpu_vmm.PageAllocator.{allocate_gpu_page}
use gpu_vmm.PageAllocator.Allocate.{allocate_gpu_page_cases}
use gpu_vmm.Migration.{migrate_cpu_to_gpu}
use gpu_vmm.Vm.State.{World, Vm, now, tick, charge_to_gpu}
use gpu_vmm.Vm.Allocate.{give_gpu_page, gpu_loop}
use gpu_vmm.Vm.Ownership.Table.{gpu_of, gpu_address_of, gpu_of-write, cpu_of-write_same}
use gpu_vmm.Vm.Ownership.Extends.{
  Present, Extends, Extends-refl, Extends-trans, write-Extends_plain,
}
use gpu_vmm.Vm.Ownership.Frames.{Exclusive, allocate_gpu_page_rest}
use gpu_vmm.Vm.Ownership.Transfer.{allocate_gpu-Exclusive}
use gpu_vmm.Vm.Ownership.Same.{migrate_cpu_to_gpu-IsSame, IsSame, IsSame-Exclusive}
use gpu_vmm.Vm.Ownership.Valid.{IsFixed, IsFixed-refl, IsFixed-trans}

-- A migration touches the entry of its own page only.
migrate_cpu_to_gpu_others :
    (start stop : ℕ) (t : PageTable) (vpn cpu gpu v : ℕ)
    → vpn ≢ v
    → lookup_entry (migrate_cpu_to_gpu start stop t vpn cpu gpu).0 v ≡ lookup_entry t v
unfolding migrate_cpu_to_gpu
migrate_cpu_to_gpu_others start stop t vpn cpu gpu v apart = elim (Bool-cases (cpu == 0)) [
  | inl null ↦ rw null
  | inr there ↦ elim (Option-cases (lookup_entry t vpn)) [
    | inl e ↦ rw (there, e)
    | inr (x, e) ↦
        let f = λ (y : PageTableEntry). record y {
          resident_on_gpu = true;
          gpu_address = gpu;
          is_dirty = false;
        } in
        rw (there, e) (ground (arith, lookup-write f t vpn v))
  ]
]

-- What prefetching does to the manager; only pages of the run from `vpn` on are touched.
pub record Prefetches (vpn n : ℕ) (s u : Vm) : Type 0 where
  pub exclusive : Exclusive u.allocator u.page_table
  pub policy : u.replacement_policy ≡ s.replacement_policy
  pub tlb : u.tlb ≡ s.tlb
  pub config : u.allocator.config ≡ s.allocator.config
  pub fixed : IsFixed s u
  pub extends : Extends s.page_table u.page_table
  pub others :
      (v : ℕ) → in_range vpn n v ≡ false → lookup_entry u.page_table v ≡ lookup_entry s.page_table v

pub Prefetches-refl :
    (vpn n : ℕ) (s : Vm) → Exclusive s.allocator s.page_table → Prefetches vpn n s s
Prefetches-refl vpn n s x = record {
  exclusive = x;
  policy = refl;
  tlb = refl;
  config = refl;
  fixed = IsFixed-refl s;
  extends = Extends-refl s.page_table;
  others = λ v out. refl;
}

Prefetches-trans :
    {s u r : Vm} (vpn n : ℕ)
    → Prefetches vpn 1 s u
    → Prefetches (vpn + 1) n u r
    → Prefetches vpn (suc n) s r
Prefetches-trans vpn n k l = record {
  exclusive = l.exclusive;
  policy = l.policy ∙ k.policy;
  tlb = l.tlb ∙ k.tlb;
  config = l.config ∙ k.config;
  fixed = IsFixed-trans k.fixed l.fixed;
  extends = Extends-trans k.extends l.extends;
  others = λ v out. l.others v (ground arith) ∙ k.others v (ground arith);
}

give_gpu_page-Prefetches :
    (w : World) (s : Vm) (vpn p : ℕ)
    → Exclusive s.allocator s.page_table
    → Present s.page_table vpn
    → gpu_of s.page_table vpn ≡ 0
    → Prefetches vpn 1 s (give_gpu_page w s vpn p)
unfolding give_gpu_page set_gpu_resident charge_to_gpu
give_gpu_page-Prefetches w s vpn p x (e, h) bare =
    let r = allocate_gpu_page s.allocator in
    let s₁ : Vm = record s { allocator = r.0 } in
    let f = λ (y : PageTableEntry). record y {
      resident_on_gpu = true;
      gpu_address = r.1;
      access_timestamp_us = now w s₁;
    } in
    let t = write f s.page_table vpn in
    let gpu = gpu_of-write f s.page_table vpn r.1 e (λ y. refl) h in
    let y : Exclusive r.0 t =
      allocate_gpu-Exclusive x t vpn bare gpu (cpu_of-write_same f s.page_table vpn (λ z. refl)) in
    let more = write-Extends_plain f s.page_table vpn (λ z on. on) (λ z. refl) in
    elim (Bool-cases (r.1 == 0)) [
      | inl null ↦ elim (allocate_gpu_page_cases s.allocator x.valid) [
        | inl (j, k) ↦ absurd (k.nonnull (==→eq r.1 0 null))
        | inr (full, _) ↦
            rw (give_gpu_page, null)
              (record {
                exclusive = rw full x;
                policy = refl;
                tlb = refl;
                config = rw full refl;
                fixed = record {
                  config = refl;
                  memory = refl;
                  next_vpn = refl;
                  allocations = refl;
                };
                extends = Extends-refl s.page_table;
                others = λ v out. refl;
              })
      ]
      | inr got ↦
          let start = now w (tick s) in
          let stop = now w (tick (tick s)) in
          let mine : r.1 ≡ gpu_of t vpn = ground (arith, gpu vpn) in
          let u = (migrate_cpu_to_gpu start stop t vpn p r.1).0 in
          let same : IsSame t u = migrate_cpu_to_gpu-IsSame start stop t vpn p r.1 mine in
          rw (give_gpu_page, got)
            (record {
              exclusive = IsSame-Exclusive y u same;
              policy = refl;
              tlb = refl;
              config = (allocate_gpu_page_rest s.allocator).1;
              fixed = record { config = refl; memory = refl; next_vpn = refl; allocations = refl };
              extends = Extends-trans more same.extends;
              others = λ v out.
                  let apart : vpn ≢ v = ground arith in
                  migrate_cpu_to_gpu_others start stop t vpn p r.1 v apart
                  ∙ ground (arith, lookup-write f s.page_table vpn v);
            })
    ]

gpu_of_congr :
    (t u : PageTable) (v : ℕ) → lookup_entry u v ≡ lookup_entry t v → gpu_of u v ≡ gpu_of t v
unfolding gpu_of
gpu_of_congr t u v e = ap gpu_address_of e

-- The loop over the `n` pages that are left, which have entries and no GPU address.
pub gpu_loop-Prefetches :
    (w : World) (ps : List ℕ) (i start vpn : ℕ) (s : Vm)
    → vpn ≡ start + i
    → vpn + length ps ≤ u64_mod
    → Exclusive s.allocator s.page_table
    → ((v : ℕ)
        → in_range vpn (length ps) v ≡ true
        → Present s.page_table v × (gpu_of s.page_table v ≡ 0))
    → Prefetches vpn (length ps) s (gpu_loop w ps i start s)
unfolding gpu_loop
gpu_loop-Prefetches w [] i start vpn s e h x todo = Prefetches-refl vpn 0 s x
gpu_loop-Prefetches w (p ∷ ps) i start vpn s e h x todo =
    let at_vpn : u64_add start i ≡ vpn = omega (arith, u64_add_small start i (omega arith)) in
    let (here, bare) = todo vpn (ground arith) in
    let u = give_gpu_page w s vpn p in
    let k = give_gpu_page-Prefetches w s vpn p x here bare in
    let round : gpu_loop w (p ∷ ps) i start s ≡ gpu_loop w ps (i + 1) start u =
      ap (λ j. gpu_loop w ps (i + 1) start (give_gpu_page w s j p)) at_vpn in
    subst (λ r. Prefetches vpn (suc (length ps)) s r) (sym round)
      (Prefetches-trans vpn (length ps) k (
        gpu_loop-Prefetches w ps (i + 1) start (vpn + 1) u (omega arith) (omega arith) k.exclusive
          (λ v inside.
            let (there, zero_gpu) = todo v (ground arith) in
            (
              k.extends.present v there,
              gpu_of_congr s.page_table u.page_table v (k.others v (ground arith)) ∙ zero_gpu,
            ))))
