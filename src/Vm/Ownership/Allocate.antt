-- ===== src/Vm/Ownership/Allocate.antt =====
-- `allocate`, as a whole: the two ways it ends.
use gpu_vmm.Prelude.{
  ◌==◌, ℕ, ◌+◌, ◌<◌, ◌≡◌, ◌≢◌, ◌⊎◌, refl, sym, ◌∙◌, ap, Bool, true, false, none, some, [], arith,
  if◌then◌else◌, inl, inr, length,
}
use gpu_vmm.Prelude.Assoc.{find, find-insert}
use gpu_vmm.Common.Words.{u64_mod, u64_add}
use gpu_vmm.Common.Address.{vpn_to_vaddr}
use gpu_vmm.PageTable.{PageTable, lookup_entry, allocate_vpn_range, deallocate_vpn_range}
use gpu_vmm.PageTable.Range.{
  fresh, in_range, Added, allocate_vpn_range-Added, lookup-deallocate_vpn_range,
}
use gpu_vmm.Vm.State.{World, Vm}
use gpu_vmm.Vm.Allocate.{pages_of, cpu_loop, gpu_loop, publish, allocate}
use gpu_vmm.Vm.Ownership.Table.{cpu_of, gpu_of, cpu_address_of, gpu_address_of}
use gpu_vmm.Vm.Ownership.Extends.{IsOnCpu}
use gpu_vmm.Vm.Ownership.Transfer.{same-Exclusive}
use gpu_vmm.Vm.Ownership.Release.{frames, length-frames}
use gpu_vmm.Vm.Ownership.Fill.{cpu_loop-Fills}
use gpu_vmm.Vm.Ownership.Filling.{Filling, Undone, IsBare}
use gpu_vmm.Vm.Ownership.Prefetch.{Prefetches-refl, Prefetches, gpu_loop-Prefetches}
use gpu_vmm.Vm.Ownership.Valid.{IsValid, IsFixed}

-- A successful allocation of `n` pages: the address is that of page `next_vpn`, and the map of allocations gets it; the
-- `n` pages from there on are on the CPU, each with a frame; the other pages, the memory and the configuration are as they were.
pub record Allocates (s : Vm) (n : ℕ) (r : Vm × ℕ) : Type 0 where
  pub valid : IsValid r.0
  pub address : r.1 ≡ vpn_to_vaddr s.next_vpn s.config.page_size
  pub next_vpn : r.0.next_vpn ≡ s.next_vpn + n
  pub config : r.0.config ≡ s.config
  pub memory : r.0.memory ≡ s.memory
  pub recorded :
      (a : ℕ)
      → find a r.0.vaddr_to_vpn_map
        ≡ (if r.1 == a then some s.next_vpn else find a s.vaddr_to_vpn_map)
  pub pages :
      (v : ℕ)
      → in_range s.next_vpn n v ≡ true
      → IsOnCpu r.0.page_table v × (cpu_of r.0.page_table v ≢ 0)
  pub others :
      (v : ℕ)
      → in_range s.next_vpn n v ≡ false
      → lookup_entry r.0.page_table v ≡ lookup_entry s.page_table v

-- A failed one: null, and every page has the entry that it had.
pub record Refuses (s : Vm) (r : Vm × ℕ) : Type 0 where
  pub valid : IsValid r.0
  pub null : r.1 ≡ 0
  pub fixed : IsFixed s r.0
  pub entries : (v : ℕ) → lookup_entry r.0.page_table v ≡ lookup_entry s.page_table v

cpu_of_lookup :
    (t u : PageTable) (v : ℕ) → lookup_entry u v ≡ lookup_entry t v → cpu_of u v ≡ cpu_of t v
unfolding cpu_of
cpu_of_lookup t u v e = ap cpu_address_of e

gpu_of_lookup :
    (t u : PageTable) (v : ℕ) → lookup_entry u v ≡ lookup_entry t v → gpu_of u v ≡ gpu_of t v
unfolding gpu_of
gpu_of_lookup t u v e = ap gpu_address_of e

module _ (s : Vm) (v : IsValid s) (n : ℕ) (room : s.next_vpn + n < u64_mod) where
  -- The state after the range is in the page table.
  abbrev ranged : Vm
  ranged = record s { page_table = (allocate_vpn_range s.page_table s.next_vpn n).0 }

  added : Added s.next_vpn n s.page_table (allocate_vpn_range s.page_table s.next_vpn n)
  added =
      allocate_vpn_range-Added s.page_table s.next_vpn n (omega arith)
        (λ j inside. v.unused j (ground arith))

  ranged-addresses :
      (j : ℕ)
      → (cpu_of ranged.page_table j ≡ cpu_of s.page_table j)
        × (gpu_of ranged.page_table j ≡ gpu_of s.page_table j)
  unfolding cpu_of gpu_of
  ranged-addresses j = ground (arith, added.added j, added.absent j)

  ranged-IsBare : IsBare ranged.page_table s.next_vpn n
  unfolding cpu_of gpu_of
  ranged-IsBare j inside = ground (arith, added.added j)

  ranged-Filling : Filling s.next_vpn 0 n ranged ranged
  ranged-Filling = record {
    exclusive =
        same-Exclusive v.exclusive ranged.page_table 0 (λ j. (ranged-addresses j).0)
          (λ j. (ranged-addresses j).1);
    policy = v.policy;
    tlb = refl;
    config = refl;
    fixed = record { config = refl; memory = refl; next_vpn = refl; allocations = refl };
    done = λ j inside. absurd (ground arith);
    todo = λ j inside.
        let in_it : in_range s.next_vpn n j ≡ true = ground arith in
        ((fresh, added.added j ∙ rw in_it), (ranged-IsBare j in_it).0);
    gpu = λ j. refl;
    outside = λ j out. refl;
  }

  -- A failed loop: the range leaves the page table again.
  Undone-Refuses :
      (r : Vm)
      → Undone s.next_vpn n ranged r
      → Refuses s (record r { page_table = deallocate_vpn_range r.page_table s.next_vpn n }, 0)
  Undone-Refuses r d =
      let u = deallocate_vpn_range r.page_table s.next_vpn n in
      let gone = λ (j : ℕ). lookup-deallocate_vpn_range r.page_table s.next_vpn n j (omega arith) in
      let same : (j : ℕ) → lookup_entry u j ≡ lookup_entry s.page_table j =
        λ j. ground (arith, gone j, d.outside j, added.added j, added.absent j) in
      record {
        valid = record {
          exclusive =
              d.exclusive u
                (λ j. cpu_of_lookup s.page_table u j (same j) ∙ sym (ranged-addresses j).0)
                (λ j. gpu_of_lookup s.page_table u j (same j) ∙ sym (ranged-addresses j).1);
          tlb = rw d.tlb v.tlb;
          policy = d.policy;
          page_size = rw (d.config, d.fixed.config) v.page_size;
          unused = λ j below. same j ∙ v.unused j (rw d.fixed.next_vpn at below);
          allocated = rw (d.fixed.allocations, d.fixed.next_vpn) v.allocated;
        };
        null = refl;
        fixed = record {
          config = d.fixed.config;
          memory = d.fixed.memory;
          next_vpn = d.fixed.next_vpn;
          allocations = d.fixed.allocations;
        };
        entries = same;
      }

  -- The end of a successful call, whether or not pages were prefetched.
  published-Allocates :
      (f u : Vm)
      → Filling s.next_vpn n 0 ranged f
      → Prefetches s.next_vpn n f u
      → Allocates s n (publish u n)
  unfolding publish
  published-Allocates f u d k =
      let next : u.next_vpn ≡ s.next_vpn = k.fixed.next_vpn ∙ d.fixed.next_vpn in
      let config : u.config ≡ s.config = k.fixed.config ∙ d.fixed.config in
      let sum : u64_add u.next_vpn n ≡ s.next_vpn + n = omega (arith, next) in
      let apart : (j : ℕ)
          → in_range s.next_vpn n j ≡ false
          → lookup_entry u.page_table j ≡ lookup_entry s.page_table j =
        λ j out. ground (arith, k.others j out, d.outside j, added.added j) in
      record {
        valid = record {
          exclusive = k.exclusive;
          tlb = rw (k.tlb, d.tlb) v.tlb;
          policy = rw k.policy d.policy;
          page_size = rw (k.config, d.config, config) v.page_size;
          unused = λ j below. apart j (ground (arith, sum)) ∙ v.unused j (omega (arith, sum));
          allocated = λ a p e. ground (
            arith,
            sum,
            next,
            find-insert (vpn_to_vaddr u.next_vpn u.config.page_size) a u.next_vpn
                u.vaddr_to_vpn_map,
            k.fixed.allocations,
            d.fixed.allocations,
            v.allocated a p,
          );
        };
        recorded = λ a.
            find-insert (vpn_to_vaddr u.next_vpn u.config.page_size) a u.next_vpn u.vaddr_to_vpn_map
            ∙ rw (next, k.fixed.allocations, d.fixed.allocations);
        address = rw (next, config);
        next_vpn = sum;
        config = config;
        memory = k.fixed.memory ∙ d.fixed.memory;
        pages = λ j inside.
            let (on, held) = d.done j inside in
            (k.extends.on_cpu j on, λ z. held (sym (k.extends.cpu j held) ∙ z));
        others = apart;
      }

  prefetched-Prefetches :
      (w : World) (prefetch : Bool) (f : Vm)
      → Filling s.next_vpn n 0 ranged f
      → Prefetches s.next_vpn n f
          (if prefetch then gpu_loop w (frames f.page_table s.next_vpn n) 0 s.next_vpn f else f)
  prefetched-Prefetches w false f d = Prefetches-refl s.next_vpn n f d.exclusive
  prefetched-Prefetches w true f d =
      let ps = frames f.page_table s.next_vpn n in
      let e : length ps ≡ n = length-frames f.page_table s.next_vpn n in
      rw e at (
        gpu_loop-Prefetches w ps 0 s.next_vpn s.next_vpn f (omega arith) (omega (arith, e))
          d.exclusive
          (λ j inside.
            let in_it : in_range s.next_vpn n j ≡ true = rw e at inside in
            let (x, h, on) = (d.done j in_it).0 in ((x, h), d.gpu j ∙ (ranged-IsBare j in_it).1)))

-- On a valid manager where the page numbers of the allocation do not reach 2 ^ 64, `allocate` leaves a valid manager.
-- Either it returns the address of page `next_vpn`, all pages of the range are on the CPU with a frame each, and no
-- other page has changed; or it returns null, and every page has the entry that it had: no frame and no page is lost.
pub allocate_cases :
    (w : World) (s : Vm) (bytes : ℕ) (prefetch : Bool)
    → IsValid s
    → s.next_vpn + pages_of bytes s.config.page_size < u64_mod
    → Allocates s (pages_of bytes s.config.page_size) (allocate w s bytes prefetch)
      ⊎ Refuses s (allocate w s bytes prefetch)
unfolding allocate frames
allocate_cases w s bytes prefetch v room =
    let n = pages_of bytes s.config.page_size in
    let s₁ = ranged s v n room in
    let zero_more : 0 + n ≡ n = omega arith in
    let accepted = (added s v n room).accepted in
    let loop =
      cpu_loop-Fills w n 0 s.next_vpn s₁ s₁ (omega arith) (rw zero_more (ranged-IsBare s v n room))
        (ranged-Filling s v n room) in
    let c = cpu_loop w n 0 s.next_vpn [] s₁ in
    elim (rw zero_more at loop) [
      | inl (got, d) ↦
          let given : c.1 ≡ some (frames c.0.page_table s.next_vpn n) = got in
          inl (
            rw (accepted, given, allocate)
              (published-Allocates s v n room c.0 _ d
                (prefetched-Prefetches s v n room w prefetch c.0 d)))
      | inr (none_left, d) ↦
          let undone : c.1 ≡ none = none_left in
          inr (rw (accepted, undone, allocate) (Undone-Refuses s v n room c.0 d))
    ]
