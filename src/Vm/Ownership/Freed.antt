-- ===== src/Vm/Ownership/Freed.antt =====
-- The loop of `free`: the frames of the pages that lose their entries.
use gpu_vmm.Prelude.{
  ℕ, zero, suc, ◌+◌, ◌≤◌, ◌≡◌, refl, sym, ◌∙◌, ap, true, arith, if◌then◌else◌, ◌==◌, Bool-cases,
  Option-cases, inl, inr, Returns, ok, ◌>>=◌, ==→eq,
}
use gpu_vmm.Common.Words.{u64_mod, u64_add, u64_add_small}
use gpu_vmm.PageTable.{PageTable, lookup_entry}
use gpu_vmm.PageTable.Range.{in_range}
use gpu_vmm.PageAllocator.{PageAllocator, deallocate_cpu_page, deallocate_gpu_page}
use gpu_vmm.Tlb
use gpu_vmm.Tlb.Invariant
use gpu_vmm.Tlb.View
use gpu_vmm.Policies.{on_page_freed}
use gpu_vmm.Policies.Lru
use gpu_vmm.Vm.State.{Vm}
use gpu_vmm.Vm.Allocate.{freed_allocator, drop_page, free_page, free_loop}
use gpu_vmm.Vm.Ownership.Table.{
  cpu_of, gpu_of, cpu_address_of, gpu_address_of, cpu_of-some, gpu_of-some,
}
use gpu_vmm.Vm.Ownership.Frames.{Exclusive, deallocate_cpu_page_config, deallocate_gpu_page_config}
use gpu_vmm.Vm.Ownership.Transfer.{same-Exclusive}
use gpu_vmm.Vm.Ownership.Release.{without, cpu_of-without, gpu_of-without, release_page-Exclusive}
use gpu_vmm.Vm.Ownership.Valid.{IsLru, IsFixed, IsFixed-refl}

deallocate_pages : PageAllocator → ℕ → ℕ → PageAllocator
deallocate_pages a cpu gpu = deallocate_gpu_page (deallocate_cpu_page a cpu) gpu

-- `free` tests the addresses for null, and the deallocators do nothing for null.
null_tests :
    (a : PageAllocator) (cpu gpu : ℕ)
    → deallocate_pages a cpu gpu ≡ (
        let a₁ = (if cpu == 0 then a else deallocate_cpu_page a cpu) in
        if gpu == 0 then a₁ else deallocate_gpu_page a₁ gpu)
unfolding deallocate_pages deallocate_cpu_page deallocate_gpu_page
null_tests a cpu gpu = elim (Bool-cases (cpu == 0)) [
  | inl c ↦ elim (Bool-cases (gpu == 0)) [ inl g ↦ rw (c, g, ==→eq gpu 0 g) | inr g ↦ rw (c, g) ]
  | inr c ↦ elim (Bool-cases (gpu == 0)) [ inl g ↦ rw (c, g, ==→eq gpu 0 g) | inr g ↦ rw (c, g) ]
]

freed_allocator_lem :
    (s : Vm) (vpn : ℕ)
    → freed_allocator s vpn
      ≡ deallocate_pages s.allocator (cpu_of s.page_table vpn) (gpu_of s.page_table vpn)
unfolding freed_allocator deallocate_pages
freed_allocator_lem s vpn = elim (Option-cases (lookup_entry s.page_table vpn)) [
  | inl e ↦
      let c : cpu_of s.page_table vpn ≡ 0 = unfold cpu_of in ap cpu_address_of e in
      let g : gpu_of s.page_table vpn ≡ 0 = unfold gpu_of in ap gpu_address_of e in
      rw (e, freed_allocator, c, g) (sym (null_tests s.allocator 0 0))
  | inr (x, e) ↦
      rw (e, freed_allocator, cpu_of-some s.page_table vpn x e, gpu_of-some s.page_table vpn x e)
        (sym (null_tests s.allocator x.cpu_address x.gpu_address))
]

-- The state after the loop: all frames of the run are free, and the table is yet to be changed to `u`.
pub record Freed (s : Vm) (u : PageTable) (r : Vm) : Type 0 where
  pub exclusive : Exclusive r.allocator u
  pub tlb : Invariant.IsValid r.tlb
  pub policy : IsLru r.replacement_policy
  pub table : r.page_table ≡ s.page_table
  pub config : r.allocator.config ≡ s.allocator.config
  pub fixed : IsFixed s r

drop_page_config : (s : Vm) (vpn : ℕ) → (freed_allocator s vpn).config ≡ s.allocator.config
drop_page_config s vpn =
    ap (λ (a : PageAllocator). a.config) (freed_allocator_lem s vpn)
    ∙ (unfold deallocate_pages in deallocate_gpu_page_config _ _ ∙ deallocate_cpu_page_config _ _)

free_page_runs :
    (s : Vm) (vpn : ℕ) (tlb : Tlb.Tlb)
    → Tlb.invalidate s.tlb vpn ≡ ok tlb
    → free_page s vpn ≡ ok (drop_page s vpn tlb)
unfolding free_page
free_page_runs s vpn tlb run = ap (λ m. m >>= λ r. ok (drop_page s vpn r)) run

-- `t` is the page table of `s` without the pages whose frames went back in earlier rounds.
pub free_loop-Freed :
    (left i start : ℕ) (s : Vm) (t u : PageTable)
    → Invariant.IsValid s.tlb
    → IsLru s.replacement_policy
    → start + i + left ≤ u64_mod
    → Exclusive s.allocator t
    → ((v : ℕ)
        → in_range (start + i) left v ≡ true
        → (cpu_of t v ≡ cpu_of s.page_table v) × (gpu_of t v ≡ gpu_of s.page_table v))
    → ((v : ℕ)
        → (cpu_of u v ≡ (if in_range (start + i) left v then 0 else cpu_of t v))
          × (gpu_of u v ≡ (if in_range (start + i) left v then 0 else gpu_of t v)))
    → Returns (free_loop left i start s) (Freed s u)
unfolding free_loop
free_loop-Freed zero i start s t u tlb policy h x same ends = (
  s,
  refl,
  (record {
    exclusive =
        same-Exclusive x u 0 (λ v. ground (arith, (ends v).0)) (λ v. ground (arith, (ends v).1));
    tlb = tlb;
    policy = policy;
    table = refl;
    config = refl;
    fixed = IsFixed-refl s;
  }),
)
free_loop-Freed (suc left) i start s t u tlb (q, is_lru) h x same ends =
    let vpn = u64_add start i in
    let at_vpn : vpn ≡ start + i = u64_add_small start i (omega arith) in
    let (tlb', run, (valid, _)) = View.invalidate_lem s.tlb tlb vpn in
    let s₁ = drop_page s vpn tlb' in
    let mine = same vpn (ground (arith, at_vpn)) in
    let y : Exclusive (freed_allocator s vpn) (without t vpn) =
      rw (freed_allocator_lem s vpn, ← mine.0, ← mine.1)
        (unfold deallocate_pages in release_page-Exclusive vpn s.allocator t x) in
    let (r, rest, f) =
      free_loop-Freed left (i + 1) start s₁ (without t vpn) u (unfold drop_page in valid)
        (unfold drop_page on_page_freed in (Lru.on_page_freed q vpn, rw is_lru)) (omega arith)
        (unfold drop_page in y)
        (unfold drop_page in
          λ v inside. (
            ground (arith, cpu_of-without t vpn v, at_vpn, same v),
            ground (arith, gpu_of-without t vpn v, at_vpn, same v),
          ))
        (λ v. (
          ground (arith, cpu_of-without t vpn v, at_vpn, ends v),
          ground (arith, gpu_of-without t vpn v, at_vpn, ends v),
        )) in
    (
      r,
      ap (λ m. m >>= free_loop left (i + 1) start) (free_page_runs s vpn tlb' run) ∙ rest,
      (record {
        exclusive = f.exclusive;
        tlb = f.tlb;
        policy = f.policy;
        table = unfold drop_page in f.table;
        config = f.config ∙ (unfold drop_page in drop_page_config s vpn);
        fixed =
            unfold drop_page in
            (record {
              config = f.fixed.config;
              memory = f.fixed.memory;
              next_vpn = f.fixed.next_vpn;
              allocations = f.fixed.allocations;
            });
      }),
    )
