-- ===== src/Vm/Ownership/Fill.antt =====
-- The first loop of `allocate`: each page of the new range gets a CPU frame, or all of them go back.
use gpu_vmm.Prelude.{
  ℕ, zero, suc, ◌+◌, ◌≤◌, ◌<◌, ◌≡◌, ◌⊎◌, refl, sym, ◌∙◌, ap, none, some, List, [], ◌∷◌, arith, ◌==◌,
  Bool-cases, inl, inr, ==→eq, ==→ne,
}
use gpu_vmm.Common.Words.{u64_mod, u64_add}
use gpu_vmm.PageTable.{PageTable, lookup_entry}
use gpu_vmm.PageTable.Range.{in_range}
use gpu_vmm.PageAllocator.{PageAllocator, allocate_cpu_page}
use gpu_vmm.PageAllocator.Allocate.{allocate_cpu_page_cases}
use gpu_vmm.Vm.State.{World, Vm}
use gpu_vmm.Vm.Allocate.{release_all, give_cpu_page, cpu_loop}
use gpu_vmm.Vm.Ownership.Table.{cpu_of}
use gpu_vmm.PageAllocator.{deallocate_cpu_page}
use gpu_vmm.Vm.Ownership.Table.{cpu_address_of}
use gpu_vmm.Vm.Ownership.Frames.{deallocate_cpu_page_config}
use gpu_vmm.Vm.Ownership.Release.{frames, release_all-Exclusive}
use gpu_vmm.Vm.Ownership.Filling.{Filling, Undone, IsBare, round-Filling, round_frames}

cpu_of_congr :
    (t u : PageTable) (v : ℕ) → lookup_entry u v ≡ lookup_entry t v → cpu_of u v ≡ cpu_of t v
unfolding cpu_of
cpu_of_congr t u v e = ap cpu_address_of e

release_all_config : (a : PageAllocator) (ps : List ℕ) → (release_all a ps).config ≡ a.config
unfolding release_all
release_all_config a [] = refl
release_all_config a (p ∷ ps) =
    release_all_config (deallocate_cpu_page a p) ps ∙ deallocate_cpu_page_config a p

-- The round that finds no frame.
last-Undone :
    (start i left : ℕ) (s₀ s : Vm)
    → IsBare s₀.page_table start (i + left)
    → Filling start i left s₀ s
    → Undone start
        (i + left)
        s₀
        (record s { allocator = release_all s.allocator (frames s.page_table start i) })
last-Undone start i left s₀ s bare f = record {
  exclusive = λ u c g.
      release_all-Exclusive i start s.allocator s.page_table u f.exclusive
        (λ v inside. f.gpu v ∙ (bare v (ground arith)).1)
        (λ v. elim (Bool-cases (in_range start i v)) [
          | inl inside ↦ rw inside (c v ∙ (bare v (ground arith)).0)
          | inr beyond ↦ rw beyond (elim (Bool-cases (in_range start (i + left) v)) [
            | inl inside ↦ c v ∙ (bare v inside).0 ∙ sym (f.todo v (ground arith)).1
            | inr out ↦ c v ∙ sym (cpu_of_congr s₀.page_table s.page_table v (f.outside v out))
          ])
        ])
        (λ v. g v ∙ sym (f.gpu v));
  policy = f.policy;
  tlb = f.tlb;
  config = release_all_config s.allocator (frames s.page_table start i) ∙ f.config;
  fixed = record {
    config = f.fixed.config;
    memory = f.fixed.memory;
    next_vpn = f.fixed.next_vpn;
    allocations = f.fixed.allocations;
  };
  outside = f.outside;
}

-- The loop fills the whole range, or undoes what it did.
pub cpu_loop-Fills :
    (w : World) (left i start : ℕ) (s₀ s : Vm)
    → start + i + left ≤ u64_mod
    → IsBare s₀.page_table start (i + left)
    → Filling start i left s₀ s
    → let r = cpu_loop w left i start (frames s.page_table start i) s in
      ((r.1 ≡ some (frames r.0.page_table start (i + left))) × Filling start (i + left) 0 s₀ r.0)
      ⊎ ((r.1 ≡ none) × Undone start (i + left) s₀ r.0)
unfolding cpu_loop
cpu_loop-Fills w zero i start s₀ s h bare f =
    let e : i + 0 ≡ i = omega arith in inl (rw e (refl, f))
cpu_loop-Fills w (suc left) i start s₀ s h bare f =
    let r = allocate_cpu_page s.allocator in
    elim (Bool-cases (r.1 == 0)) [
      | inl null ↦ elim (allocate_cpu_page_cases s.allocator f.exclusive.valid) [
        | inl (j, k) ↦ absurd (k.nonnull (==→eq r.1 0 null))
        | inr (e, _) ↦
            inr (rw (cpu_loop, null) (refl, (rw e (last-Undone start i (suc left) s₀ s bare f))))
      ]
      | inr got ↦
          let vpn = u64_add start i in
          let u = give_cpu_page w (record s { allocator = r.0 }) vpn r.1 in
          let room : start + i < u64_mod = omega arith in
          let n : i + 1 + left ≡ i + suc left = omega arith in
          let rest =
            cpu_loop-Fills w left (i + 1) start s₀ u (omega arith) (rw n bare)
              (round-Filling w start i left s₀ s room f (==→ne r.1 0 got)) in
          rw (cpu_loop, got) (rw (round_frames w start i left s₀ s room f, n) at rest)
    ]
