-- ===== src/Vm/Session/Start.antt =====
-- The manager that `initialize` makes.
use gpu_vmm.Prelude.{
  ℕ, zero, suc, ◌*◌, ◌/◌, ◌≤◌, ◌<◌, ◌≡◌, ◌≢◌, refl, ap, Bool, true, false, none, some, List, [],
  ◌∷◌, arith, inl, inr, ◌==◌, length, Returns,
}
use gpu_vmm.Prelude.Assoc.{find}
use gpu_vmm.Common.Words.{u32_mod, u64_mod}
use gpu_vmm.PageTable
use gpu_vmm.PageTable.{PageTable, lookup_entry}
use gpu_vmm.PageAllocator
use gpu_vmm.PageAllocator.{PageAllocator, cpu_frame, gpu_frame, with_pools}
use gpu_vmm.PageAllocator.Bitmap.{used, is_set}
use gpu_vmm.PageAllocator.Invariant.{Fits, initialize-IsValid}
use gpu_vmm.Tlb
use gpu_vmm.Tlb.View
use gpu_vmm.Tlb.Invariant
use gpu_vmm.PageAllocator.Invariant as Pools
use gpu_vmm.Policies.Lru
use gpu_vmm.Vm.State.{World, VmConfig, PageReplacementPolicy, Vm}
use gpu_vmm.Vm.Lifecycle.{
  Process, stopped, running, allocator_config, tlb_config, make_policy, assemble, build, initialize,
}
use gpu_vmm.Vm.Ownership.Table.{cpu_of, gpu_of, cpu_of-none, gpu_of-none}
use gpu_vmm.Vm.Ownership.Owned.{Owned}
use gpu_vmm.Vm.Ownership.Valid.{IsValid}
use gpu_vmm.Vm.Session.{Command, run, all_fit}
use gpu_vmm.Vm.Session.Valid.{run-Progress}

is_set-used : (bs : List Bool) (i : ℕ) → used bs ≡ 0 → is_set bs i ≡ false
unfolding is_set used
is_set-used [] i h = refl
is_set-used (b ∷ bs) zero h = ground arith
is_set-used (false ∷ bs) (suc i) h = is_set-used bs i h
is_set-used (true ∷ bs) (suc i) h = ground arith

-- No frame is in use and no page has an address.
Owned-none :
    (frame : ℕ → ℕ) (in_use : ℕ → Bool) (owner : ℕ → ℕ)
    → ((i : ℕ) → in_use i ≡ false)
    → ((v : ℕ) → owner v ≡ 0)
    → Owned frame in_use owner
Owned-none frame in_use owner idle bare = record {
  held = λ v nonzero. absurd (nonzero (bare v));
  alone = λ v u nonzero same. absurd (nonzero (bare v));
  covered = λ i h. absurd (ground (arith, idle i));
}

initialize_config :
    (malloc : ℕ → ℕ) (c : PageAllocator.Config) (a : PageAllocator)
    → PageAllocator.initialize malloc (PageAllocator.create c) ≡ some a
    → a.config ≡ c
unfolding PageAllocator.initialize PageAllocator.create with_pools
initialize_config malloc c a h = ground arith

-- What the configuration and `malloc` have to be: the LRU policy, a TLB with ways and sets, pools that fit in the
-- address space, and a block.
pub record IsSound (malloc : ℕ → ℕ) (c : VmConfig) : Type 0 where
  pub fits : Fits malloc (allocator_config c)
  pub block : malloc c.gpu_memory ≢ 0
  pub policy : c.replacement_policy ≡ PageReplacementPolicy.lru
  pub ways : 0 < c.tlb_associativity
  pub sets : 0 < c.tlb_size / c.tlb_associativity

module _ (process : Process) (c : VmConfig) (a : PageAllocator) (tlb : Tlb.Tlb) where
  abbrev pub started : Vm
  started = record {
    config = c;
    perf_counters = process.counters;
    page_table = PageTable.initialize (PageTable.create c.page_size) c.virtual_address_space;
    allocator = a;
    tlb = tlb;
    replacement_policy = make_policy c.replacement_policy;
    next_vpn = 0;
    vaddr_to_vpn_map = [];
    gpu_resident_pages = [];
    readings = process.readings;
    memory = process.memory;
  }

  nothing_there : (v : ℕ) → lookup_entry started.page_table v ≡ none
  unfolding lookup_entry PageTable.initialize PageTable.create find
  nothing_there v = refl

  started-IsValid :
      (malloc : ℕ → ℕ)
      → IsSound malloc c
      → PageAllocator.initialize malloc (PageAllocator.create (allocator_config c)) ≡ some a
      → Pools.IsValid a
      → used a.cpu_page_bitmap ≡ 0
      → used a.gpu_page_bitmap ≡ 0
      → Invariant.IsValid tlb
      → IsValid started
  unfolding make_policy allocator_config find
  started-IsValid malloc sound made pools cpu_idle gpu_idle cache = record {
    exclusive = record {
      valid = pools;
      cpu =
          Owned-none (cpu_frame a) (is_set a.cpu_page_bitmap) (cpu_of started.page_table)
            (λ i. is_set-used a.cpu_page_bitmap i cpu_idle)
            (λ v. cpu_of-none started.page_table v (nothing_there v));
      gpu =
          Owned-none (gpu_frame a) (is_set a.gpu_page_bitmap) (gpu_of started.page_table)
            (λ i. is_set-used a.gpu_page_bitmap i gpu_idle)
            (λ v. gpu_of-none started.page_table v (nothing_there v));
    };
    tlb = cache;
    policy = (Lru.create 65536, ap make_policy sound.policy);
    page_size =
        ap (λ (d : PageAllocator.Config). d.page_size)
          (initialize_config malloc (allocator_config c) a made);
    unused = λ v h. nothing_there v;
    allocated =
        λ vaddr start h. (let missing : none ≡ some start = h in absurd (ground (arith, missing)));
  }

-- A sound configuration: the LRU policy, at least one TLB set and way, a positive page size, pools within the address
-- space, and a `malloc` that returns a block. `initialize` of a stopped manager then ends without a fault in a running
-- manager, on which any list of public calls, in any order and with any addresses, whose reads and writes are of
-- at most a page and which is short enough for 2 ^ 32 page numbers for each call, ends without a fault in a valid manager.
pub initialize-run :
    (malloc : ℕ → ℕ) (process : Process) (c : VmConfig) (w : World) (cs : List Command)
    → IsSound malloc c
    → length cs * u32_mod ≤ u64_mod
    → all_fit c.page_size cs ≡ true
    → Returns
        (initialize malloc process (stopped process.counters) c)
        λ m. (s : Vm) × (m ≡ running s) × Returns (run w cs s) IsValid
unfolding initialize build assemble allocator_config tlb_config
initialize-run malloc process c w cs sound room fit =
    let page : (c.page_size == 0) ≡ false = ground (arith, sound.fits.page_pos) in
    let (tlb, made_tlb, (_, cache, _)) = View.initialize_lem (tlb_config c) sound.ways sound.sets in
    elim (initialize-IsValid malloc (allocator_config c) sound.fits) [
      | inl (null, _) ↦ absurd (sound.block null)
      | inr (a, made, pools, cpu_idle, gpu_idle) ↦
          let s = started process c a tlb in
          let v = started-IsValid process c a tlb malloc sound made pools cpu_idle gpu_idle cache in
          let (r, ran, p) = run-Progress w cs s v (omega arith) fit in
          (running s, rw (page, made, build) (rw made_tlb), (s, refl, (r, ran, p.valid)))
    ]
