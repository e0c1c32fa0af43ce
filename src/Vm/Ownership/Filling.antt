-- ===== src/Vm/Ownership/Filling.antt =====
-- The first loop of `allocate`, round by round.
use gpu_vmm.Prelude.{
  subst, ◌^◌, ◌%◌, ℕ, suc, ◌+◌, ◌<◌, ◌≡◌, ◌≢◌, refl, sym, ◌∙◌, ap, true, false, some, [], ◌∷◌, ◌++◌,
  arith, if◌then◌else◌, ◌==◌, Bool-cases, inl, inr, ==→eq, ==→ne, ==_refl,
}
use gpu_vmm.Common.Words.{u64_mod, u64_add, u64_add_small}
use gpu_vmm.PageTable.{
  PageTable, PageTableEntry, lookup_entry, write, set_cpu_resident, update_access_time,
}
use gpu_vmm.PageTable.Range.{in_range}
use gpu_vmm.PageTable.Residency.{lookup-write}
use gpu_vmm.PageAllocator.{allocate_cpu_page}
use gpu_vmm.Policies.{on_page_allocated}
use gpu_vmm.Policies.Lru
use gpu_vmm.Vm.State.{World, Vm, now, tick}
use gpu_vmm.Vm.Allocate.{give_cpu_page}
use gpu_vmm.Vm.Ownership.Table.{cpu_of, gpu_of, cpu_of-write, cpu_of-write_same, gpu_of-write_same}
use gpu_vmm.Vm.Ownership.Extends.{Present, IsOnCpu, lookup-write_at}
use gpu_vmm.Vm.Ownership.Frames.{Exclusive, allocate_cpu_page_rest}
use gpu_vmm.Vm.Ownership.Transfer.{allocate_cpu-Exclusive}
use gpu_vmm.Vm.Ownership.Release.{frames_snoc, frames, frames_congr}
use gpu_vmm.Vm.Ownership.Valid.{IsLru, IsFixed}

-- The table after one round that gave page `vpn` the frame at `p`.
record Given (t u : PageTable) (vpn p : ℕ) : Type 0 where
  pub cpu : (v : ℕ) → cpu_of u v ≡ (if vpn == v then p else cpu_of t v)
  pub gpu : (v : ℕ) → gpu_of u v ≡ gpu_of t v
  pub on_cpu : IsOnCpu u vpn
  pub others : (v : ℕ) → vpn ≢ v → lookup_entry u v ≡ lookup_entry t v

give_cpu_page-Given :
    (w : World) (s : Vm) (vpn p : ℕ)
    → Present s.page_table vpn
    → Given s.page_table (give_cpu_page w s vpn p).page_table vpn p
unfolding give_cpu_page set_cpu_resident update_access_time
give_cpu_page-Given w s vpn p (x, h) =
    let f = λ (e : PageTableEntry). record e {
      resident_on_cpu = true;
      cpu_address = p;
      access_timestamp_us = now w s;
    } in
    let g = λ (e : PageTableEntry). record e {
      access_timestamp_us = now w (tick s);
      access_count = (e.access_count + 1) % 2 ^ 32;
    } in
    let t₁ = write f s.page_table vpn in
    let found : lookup_entry t₁ vpn ≡ some (f x) =
      lookup-write_at f s.page_table vpn vpn x h ∙ rw (==_refl vpn) in
    record {
      cpu = λ v.
          cpu_of-write_same g t₁ vpn (λ e. refl) v
          ∙ cpu_of-write f s.page_table vpn p x (λ e. refl) h v;
      gpu = λ v.
          gpu_of-write_same g t₁ vpn (λ e. refl) v
          ∙ gpu_of-write_same f s.page_table vpn (λ e. refl) v;
      on_cpu = (g (f x), lookup-write_at g t₁ vpn vpn (f x) found ∙ rw (==_refl vpn), refl);
      others =
          λ v apart. ground (arith, lookup-write g t₁ vpn v, lookup-write f s.page_table vpn v);
    }

-- Before the round for page `start + i`, with `left` rounds to go; `s₀` is the state before the loop.
pub record Filling (start i left : ℕ) (s₀ s : Vm) : Type 0 where
  pub exclusive : Exclusive s.allocator s.page_table
  pub policy : IsLru s.replacement_policy
  pub tlb : s.tlb ≡ s₀.tlb
  pub config : s.allocator.config ≡ s₀.allocator.config
  pub fixed : IsFixed s₀ s
  pub done :
      (v : ℕ) → in_range start i v ≡ true → IsOnCpu s.page_table v × (cpu_of s.page_table v ≢ 0)
  pub todo :
      (v : ℕ)
      → in_range (start + i) left v ≡ true
      → Present s.page_table v × (cpu_of s.page_table v ≡ 0)
  pub gpu : (v : ℕ) → gpu_of s.page_table v ≡ gpu_of s₀.page_table v
  pub outside :
      (v : ℕ)
      → in_range start (i + left) v ≡ false
      → lookup_entry s.page_table v ≡ lookup_entry s₀.page_table v

-- The frames are all back: with the addresses that the pages had before the loop, ownership holds again.
pub record Undone (start n : ℕ) (s₀ r : Vm) : Type 0 where
  pub exclusive :
      (u : PageTable)
      → ((v : ℕ) → cpu_of u v ≡ cpu_of s₀.page_table v)
      → ((v : ℕ) → gpu_of u v ≡ gpu_of s₀.page_table v)
      → Exclusive r.allocator u
  pub policy : IsLru r.replacement_policy
  pub tlb : r.tlb ≡ s₀.tlb
  pub config : r.allocator.config ≡ s₀.allocator.config
  pub fixed : IsFixed s₀ r
  pub outside :
      (v : ℕ)
      → in_range start n v ≡ false
      → lookup_entry r.page_table v ≡ lookup_entry s₀.page_table v

-- No page of the range has an address yet.
abbrev pub IsBare : PageTable → ℕ → ℕ → Type 0
IsBare t start n = (v : ℕ) → in_range start n v ≡ true → (cpu_of t v ≡ 0) × (gpu_of t v ≡ 0)

IsOnCpu_congr :
    (t u : PageTable) (v : ℕ) → lookup_entry u v ≡ lookup_entry t v → IsOnCpu t v → IsOnCpu u v
IsOnCpu_congr t u v same (e, h, on) = (e, same ∙ h, on)

pub round-Filling :
    (w : World) (start i left : ℕ) (s₀ s : Vm)
    → start + i < u64_mod
    → Filling start i (suc left) s₀ s
    → (allocate_cpu_page s.allocator).1 ≢ 0
    → Filling start (i + 1) left s₀ (
        give_cpu_page w
          (record s { allocator = (allocate_cpu_page s.allocator).0 })
          (u64_add start i)
          (allocate_cpu_page s.allocator).1)
round-Filling w start i left s₀ s h f got =
    let r = allocate_cpu_page s.allocator in
    let vpn = u64_add start i in
    let s' : Vm = record s { allocator = r.0 } in
    let at_vpn : vpn ≡ start + i = u64_add_small start i h in
    let (here, bare) = f.todo vpn (ground (arith, at_vpn)) in
    let g = give_cpu_page-Given w s' vpn r.1 here in
    let (q, is_lru) = f.policy in
    let u = give_cpu_page w s' vpn r.1 in
    let apart : (v : ℕ) → vpn ≢ v → cpu_of u.page_table v ≡ cpu_of s.page_table v =
      λ v ne. ground (arith, g.cpu v) in
    record {
      exclusive =
          unfold give_cpu_page in
          allocate_cpu-Exclusive f.exclusive u.page_table vpn bare g.cpu g.gpu;
      policy = unfold give_cpu_page on_page_allocated in (Lru.on_page_allocated q vpn, rw is_lru);
      tlb = unfold give_cpu_page in f.tlb;
      config = unfold give_cpu_page in (allocate_cpu_page_rest s.allocator).1 ∙ f.config;
      fixed =
          unfold give_cpu_page in
          record {
            config = f.fixed.config;
            memory = f.fixed.memory;
            next_vpn = f.fixed.next_vpn;
            allocations = f.fixed.allocations;
          };
      done = λ v inside. elim (Bool-cases (vpn == v)) [
        | inl same ↦
            let e = ==→eq vpn v same in
            (
              subst (λ j. IsOnCpu u.page_table j) e g.on_cpu,
              λ z. got (sym (rw same at (g.cpu v)) ∙ z),
            )
        | inr other ↦
            let ne = ==→ne vpn v other in
            let (on, held) = f.done v (ground (arith, at_vpn, ne)) in
            (
              IsOnCpu_congr s.page_table u.page_table v (g.others v ne) on,
              λ z. held (sym (apart v ne) ∙ z),
            )
      ];
      todo = λ v inside.
          let ne : vpn ≢ v = ground (arith, at_vpn) in
          let ((e, there), none_yet) = f.todo v (ground arith) in
          ((e, g.others v ne ∙ there), apart v ne ∙ none_yet);
      gpu = λ v. g.gpu v ∙ f.gpu v;
      outside = λ v out.
          let ne : vpn ≢ v = ground (arith, at_vpn) in g.others v ne ∙ f.outside v (ground arith);
    }

pub round_frames :
    (w : World) (start i left : ℕ) (s₀ s : Vm)
    → start + i < u64_mod
    → Filling start i (suc left) s₀ s
    → frames
        (give_cpu_page w
          (record s { allocator = (allocate_cpu_page s.allocator).0 })
          (u64_add start i)
          (allocate_cpu_page s.allocator).1).page_table
        start
        (i + 1)
      ≡ frames s.page_table start i ++ (allocate_cpu_page s.allocator).1 ∷ []
round_frames w start i left s₀ s h f =
    let r = allocate_cpu_page s.allocator in
    let vpn = u64_add start i in
    let s' : Vm = record s { allocator = r.0 } in
    let at_vpn : vpn ≡ start + i = u64_add_small start i h in
    let g = give_cpu_page-Given w s' vpn r.1 (f.todo vpn (ground (arith, at_vpn))).0 in
    let u = give_cpu_page w s' vpn r.1 in
    let last : cpu_of u.page_table (start + i) ≡ r.1 = ground (arith, g.cpu (start + i), at_vpn) in
    frames_snoc u.page_table start i
    ∙ ap (λ n. frames u.page_table start i ++ n ∷ []) last
    ∙ ap (λ ps. ps ++ r.1 ∷ [])
        (frames_congr s.page_table u.page_table start i
          (λ v inside. ground (arith, g.cpu v, at_vpn)))
