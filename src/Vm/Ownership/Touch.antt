-- ===== src/Vm/Ownership/Touch.antt =====
-- Touches and page fetches, and the place of a page in the pool.
use native.Mathlib.Nat.{div-mul-le_self}
use gpu_vmm.Prelude.{
  ◌^◌, ◌%◌, ℕ, suc, ◌+◌, ◌*◌, ◌≤◌, ◌<◌, ◌≡◌, ◌≢◌, refl, sym, ◌∙◌, ap, Bool, true, false, some,
  arith, length, if◌then◌else◌, Bool-cases, Option-cases, inl, inr, Returns, ok, ◌>>=◌,
}
use gpu_vmm.Common.Counters.{PerfCounters}
use gpu_vmm.Common.Address.{vaddr_to_vpn}
use gpu_vmm.PageTable.{PageTableEntry, lookup_entry}
use gpu_vmm.PageAllocator.{PageAllocator, cpu_frame}
use gpu_vmm.PageAllocator.Invariant
use gpu_vmm.Policies.{ReplacementPolicy, on_page_access}
use gpu_vmm.Policies.Lru
use gpu_vmm.Vm.State.{World, Vm, now, tick, write_entry}
use gpu_vmm.Vm.Access.{in_pool, fetch, record_touch, touch_page}
use gpu_vmm.Vm.Ownership.Table.{cpu_of-some}
use gpu_vmm.Common.Words.{u64_add}
use gpu_vmm.Vm.Ownership.Same.{IsSame-refl}
use gpu_vmm.Vm.Ownership.Frames.{in_range_cpu}
use gpu_vmm.Vm.Ownership.Valid.{IsLru, IsValid, Keeps, Keeps-refl, Keeps-trans, IsQuiet-Keeps}
use gpu_vmm.Vm.Ownership.Evict.{with_policy-Keeps}
use gpu_vmm.Vm.Ownership.Quiet.{write_entry-IsQuiet}
use gpu_vmm.Vm.Ownership.Mappings.{resolve_page_fault-Keeps}

-- A page starting at a frame of the pool stays in the pool.
pub in_pool-frame :
    (a : PageAllocator) (i n : ℕ)
    → Invariant.IsValid a
    → i < length a.cpu_page_bitmap
    → n ≤ a.config.page_size
    → in_pool a (cpu_frame a i) n ≡ true
unfolding in_pool cpu_frame
in_pool-frame a i n v h le =
    let page = a.config.page_size in
    let size = a.config.cpu_page_pool_size in
    let whole : length a.cpu_page_bitmap * page ≤ size =
      rw v.cpu_frames (div-mul-le_self size page) in
    let below : suc i * page ≤ length a.cpu_page_bitmap * page = grind arith in
    let inside : i * page + n ≤ size = grind arith in ground arith

-- The CPU address of a page, if it has one, with the page behind it, lies in the pool.
pub in_pool-page :
    (s : Vm) (vpn n : ℕ) (e : PageTableEntry)
    → IsValid s
    → lookup_entry s.page_table vpn ≡ some e
    → e.cpu_address ≢ 0
    → n ≤ s.config.page_size
    → in_pool s.allocator e.cpu_address n ≡ true
in_pool-page s vpn n e v h held le =
    let mine = cpu_of-some s.page_table vpn e h in
    let (i, used, at_frame) = v.exclusive.cpu.held vpn (λ z. held (sym mine ∙ z)) in
    rw (sym mine ∙ at_frame) (
      in_pool-frame s.allocator i n v.exclusive.valid (in_range_cpu s.allocator i used)
        (rw v.page_size le))

-- A write to the flags and the counters of one entry, at a later time.
pub stamp-Keeps :
    (f : PageTableEntry → PageTableEntry) (s : Vm) (vpn : ℕ)
    → IsValid s
    → ((e : PageTableEntry) → (f e).cpu_address ≡ e.cpu_address)
    → ((e : PageTableEntry) → (f e).gpu_address ≡ e.gpu_address)
    → ((e : PageTableEntry) → e.resident_on_cpu ≡ true → (f e).resident_on_cpu ≡ true)
    → Keeps s (write_entry f (tick s) vpn)
stamp-Keeps f s vpn v c g flag =
    let q = write_entry-IsQuiet f s vpn c g flag in
    IsQuiet-Keeps v (write_entry f (tick s) vpn) (record {
      same = q.same;
      allocator = refl;
      tlb = refl;
      policy = refl;
      fixed = record { config = refl; memory = refl; next_vpn = refl; allocations = refl };
    })

on_page_access-IsLru : (p : ReplacementPolicy) (vpn : ℕ) → IsLru p → IsLru (on_page_access p vpn)
unfolding on_page_access
on_page_access-IsLru p vpn (q, is_lru) = (Lru.on_page_access q vpn, rw is_lru)

pub record_touch-Keeps :
    (w : World) (s : Vm) (vpn : ℕ) (is_write : Bool)
    → IsValid s
    → Keeps s (record_touch w s vpn is_write)
unfolding record_touch
record_touch-Keeps w s vpn is_write v = elim (Option-cases (lookup_entry s.page_table vpn)) [
  | inl e ↦ rw (e, record_touch) (Keeps-refl s v)
  | inr (x, e) ↦
      let f = λ (y : PageTableEntry). record y {
        access_timestamp_us = now w s;
        access_count = (y.access_count + 1) % 2 ^ 32;
        is_dirty = if is_write then true else y.is_dirty;
      } in
      let k = stamp-Keeps f s vpn v (λ y. refl) (λ y. refl) (λ y on. on) in
      rw (e, record_touch)
        (Keeps-trans k (
          with_policy-Keeps (write_entry f (tick s) vpn) (on_page_access s.replacement_policy vpn)
            (on_page_access-IsLru s.replacement_policy vpn v.policy) k.valid))
]

-- Another value of the counters.
pub counted-Keeps :
    (s : Vm) (c : PerfCounters) → IsValid s → Keeps s (record s { perf_counters = c })
counted-Keeps s c v =
    IsQuiet-Keeps v (record s { perf_counters = c })
      (record {
        same = IsSame-refl s.page_table;
        allocator = refl;
        tlb = refl;
        policy = refl;
        fixed = record { config = refl; memory = refl; next_vpn = refl; allocations = refl };
      })

pub touch_page-Keeps :
    (w : World) (s : Vm) (vaddr : ℕ) (is_write : Bool)
    → IsValid s
    → Returns (touch_page w s vaddr is_write) (Keeps s)
unfolding touch_page
touch_page-Keeps w s vaddr is_write v =
    let vpn = vaddr_to_vpn vaddr s.config.page_size in
    elim (Option-cases (lookup_entry s.page_table vpn)) [
      | inr (x, e) ↦
          (record_touch w s vpn is_write, rw (e, touch_page), record_touch-Keeps w s vpn is_write v)
      | inl e ↦
          let c = s.perf_counters in
          let d : PerfCounters = record c { total_page_faults = u64_add c.total_page_faults 1 } in
          let k = counted-Keeps s d v in
          let (u, run, l) =
            resolve_page_fault-Keeps w (record s { perf_counters = d }) vpn false k.valid in
          (
            record_touch w u vpn is_write,
            rw (e, touch_page) (ap (λ m. m >>= λ r. ok (record_touch w r vpn is_write)) run),
            Keeps-trans k (Keeps-trans l (record_touch-Keeps w u vpn is_write l.valid)),
          )
    ]

pub fetch-Keeps :
    (w : World) (s : Vm) (vpn : ℕ) (e : PageTableEntry)
    → IsValid s
    → Returns (fetch w s vpn e) (Keeps s)
unfolding fetch
fetch-Keeps w s vpn e v = elim (Bool-cases e.resident_on_cpu) [
  | inl here ↦ (s, rw here, Keeps-refl s v)
  | inr away ↦ let (u, run, k) = resolve_page_fault-Keeps w s vpn false v in (u, rw away run, k)
]
