-- ===== src/PageAllocator/Invariant.antt =====
-- The invariant of the allocator, set up by `initialize` and kept by every operation.
use gpu_vmm.Prelude.{
  ℕ, zero, suc, ◌+◌, ◌-◌, ◌/◌, ◌≤◌, ◌<◌, ◌≡◌, refl, sym, ap, true, false, none, some, [], arith,
  length, set, resize, ◌⊎◌, inl, inr, Option-cases, Bool-cases, length-set, ◌==◌, ◌||◌, ltb, leb,
}
use gpu_vmm.Common.Words.{u64_mod}
use gpu_vmm.PageAllocator.Bitmap.{
  first_free, is_set, used, first_free-some, used-set-true, used-set-false, used-le-length,
  is_set-get_elem?,
}
use gpu_vmm.PageAllocator.{
  Config, PageAllocator, gpu_base, create, with_pools, initialize, allocate_cpu_page,
  allocate_gpu_page, deallocate_cpu_page, deallocate_gpu_page, release_cpu_frame, release_gpu_frame,
}

pub record IsValid (a : PageAllocator) : Type 0 where
  pub page_pos : 0 < a.config.page_size
  pub cpu_pool_pos : 0 < a.cpu_pool
  pub cpu_pool_fits : a.cpu_pool + a.config.cpu_page_pool_size ≤ u64_mod
  pub gpu_pool_fits : gpu_base + a.config.gpu_page_pool_size ≤ u64_mod
  pub cpu_frames : length a.cpu_page_bitmap ≡ a.config.cpu_page_pool_size / a.config.page_size
  pub gpu_frames : length a.gpu_page_bitmap ≡ a.config.gpu_page_pool_size / a.config.page_size
  pub cpu_counted : a.cpu_pages_allocated ≡ used a.cpu_page_bitmap
  pub gpu_counted : a.gpu_pages_allocated ≡ used a.gpu_page_bitmap

resize-empty : (n : ℕ) → (length (resize [] n false) ≡ n) × (used (resize [] n false) ≡ 0)
unfolding used
resize-empty zero = (refl, refl)
resize-empty (suc n) = (ap suc (resize-empty n).0, (resize-empty n).1)

-- A configuration that the address space can hold: `malloc` returns null or a block that fits.
pub record Fits (malloc : ℕ → ℕ) (c : Config) : Type 0 where
  pub page_pos : 0 < c.page_size
  pub block_fits : malloc c.cpu_page_pool_size + c.cpu_page_pool_size ≤ u64_mod
  pub gpu_fits : gpu_base + c.gpu_page_pool_size ≤ u64_mod

-- With a positive page size and pools that the address space can hold, `initialize` of a new allocator throws
-- if `malloc` returns null, and otherwise gives a valid allocator with no frame in use.
pub initialize-IsValid :
    (malloc : ℕ → ℕ) (c : Config)
    → Fits malloc c
    → ((malloc c.cpu_page_pool_size ≡ 0) × (initialize malloc (create c) ≡ none))
      ⊎ ((a : PageAllocator) × (initialize malloc (create c) ≡ some a)
          × IsValid a
          × (used a.cpu_page_bitmap ≡ 0)
          × (used a.gpu_page_bitmap ≡ 0))
unfolding initialize create
initialize-IsValid malloc c f = elim (Bool-cases (malloc c.cpu_page_pool_size == 0)) [
  | inl null ↦ inl (ground arith, rw null)
  | inr block ↦
      let cpu = resize-empty (c.cpu_page_pool_size / c.page_size) in
      let gpu = resize-empty (c.gpu_page_pool_size / c.page_size) in
      inr (
        with_pools (malloc c.cpu_page_pool_size) (create c),
        rw block,
        (record {
          page_pos = f.page_pos;
          cpu_pool_pos = ground arith;
          cpu_pool_fits = f.block_fits;
          gpu_pool_fits = f.gpu_fits;
          cpu_frames = cpu.0;
          gpu_frames = gpu.0;
          cpu_counted = sym cpu.1;
          gpu_counted = sym gpu.1;
        }),
        cpu.1,
        gpu.1,
      )
]

-- A bitmap with a page for each frame is shorter than the address space.
pub frames-lt : (n pool page : ℕ) → n ≡ pool / page → pool < u64_mod → n < u64_mod
frames-lt n pool page h k = grind arith

pub allocate_cpu_page-IsValid : (a : PageAllocator) → IsValid a → IsValid (allocate_cpu_page a).0
unfolding allocate_cpu_page
allocate_cpu_page-IsValid a v = elim (Option-cases (first_free a.cpu_page_bitmap)) [
  | inl e ↦ rw (e, allocate_cpu_page) v
  | inr (i, e) ↦
      let free = (first_free-some a.cpu_page_bitmap i e).0 in
      let n = used-set-true a.cpu_page_bitmap i free in
      let l = length-set a.cpu_page_bitmap i true in
      let le = used-le-length (set a.cpu_page_bitmap i true) in
      let small = frames-lt _ _ _ v.cpu_frames (omega arith) in
      rw (e, allocate_cpu_page) (omega arith)
]

pub allocate_gpu_page-IsValid : (a : PageAllocator) → IsValid a → IsValid (allocate_gpu_page a).0
unfolding allocate_gpu_page
allocate_gpu_page-IsValid a v = elim (Option-cases (first_free a.gpu_page_bitmap)) [
  | inl e ↦ rw (e, allocate_gpu_page) v
  | inr (i, e) ↦
      let free = (first_free-some a.gpu_page_bitmap i e).0 in
      let n = used-set-true a.gpu_page_bitmap i free in
      let l = length-set a.gpu_page_bitmap i true in
      let le = used-le-length (set a.gpu_page_bitmap i true) in
      let small = frames-lt _ _ _ v.gpu_frames (omega arith) in
      rw (e, allocate_gpu_page) (omega arith)
]

release_cpu_frame-IsValid :
    (a : PageAllocator) (i : ℕ) → IsValid a → IsValid (release_cpu_frame a i)
unfolding release_cpu_frame
release_cpu_frame-IsValid a i v = elim (Bool-cases (is_set a.cpu_page_bitmap i)) [
  | inr e ↦ rw (e, release_cpu_frame) v
  | inl e ↦
      let n = used-set-false a.cpu_page_bitmap i (is_set-get_elem? a.cpu_page_bitmap i e) in
      let l = length-set a.cpu_page_bitmap i false in
      let le = used-le-length a.cpu_page_bitmap in
      let small = frames-lt _ _ _ v.cpu_frames (omega arith) in
      rw (e, release_cpu_frame) (omega arith)
]

release_gpu_frame-IsValid :
    (a : PageAllocator) (i : ℕ) → IsValid a → IsValid (release_gpu_frame a i)
unfolding release_gpu_frame
release_gpu_frame-IsValid a i v = elim (Bool-cases (is_set a.gpu_page_bitmap i)) [
  | inr e ↦ rw (e, release_gpu_frame) v
  | inl e ↦
      let n = used-set-false a.gpu_page_bitmap i (is_set-get_elem? a.gpu_page_bitmap i e) in
      let l = length-set a.gpu_page_bitmap i false in
      let le = used-le-length a.gpu_page_bitmap in
      let small = frames-lt _ _ _ v.gpu_frames (omega arith) in
      rw (e, release_gpu_frame) (omega arith)
]

pub deallocate_cpu_page-IsValid :
    (a : PageAllocator) (ptr : ℕ) → IsValid a → IsValid (deallocate_cpu_page a ptr)
unfolding deallocate_cpu_page
deallocate_cpu_page-IsValid a ptr v =
    let r = release_cpu_frame-IsValid a ((ptr - a.cpu_pool) / a.config.page_size) v in
    elim (Bool-cases (ptr == 0)) [
      | inl e ↦ rw e v
      | inr e ↦
          elim (Bool-cases
            (ltb ptr a.cpu_pool || leb a.config.cpu_page_pool_size (ptr - a.cpu_pool))) [
              | inl f ↦ rw (e, f) v
              | inr f ↦ rw (e, f) r
            ]
    ]

pub deallocate_gpu_page-IsValid :
    (a : PageAllocator) (gpu_addr : ℕ) → IsValid a → IsValid (deallocate_gpu_page a gpu_addr)
unfolding deallocate_gpu_page
deallocate_gpu_page-IsValid a gpu_addr v =
    let r = release_gpu_frame-IsValid a ((gpu_addr - gpu_base) / a.config.page_size) v in
    elim (Bool-cases (ltb gpu_addr gpu_base)) [ inl e ↦ rw e v | inr e ↦ rw e r ]

pub data Call : Type 0 where
  allocate_cpu allocate_gpu : Call
  deallocate_cpu deallocate_gpu : ℕ → Call

pub step : PageAllocator → Call → PageAllocator
step a allocate_cpu = (allocate_cpu_page a).0
step a allocate_gpu = (allocate_gpu_page a).0
step a (deallocate_cpu ptr) = deallocate_cpu_page a ptr
step a (deallocate_gpu addr) = deallocate_gpu_page a addr

-- Every allocation and every deallocation, of either pool and with any address, keeps the allocator valid: a
-- bit for every frame, and counters that equal the numbers of frames in use.
pub step-IsValid : (a : PageAllocator) (c : Call) → IsValid a → IsValid (step a c)
unfolding step
step-IsValid a allocate_cpu v = allocate_cpu_page-IsValid a v
step-IsValid a allocate_gpu v = allocate_gpu_page-IsValid a v
step-IsValid a (deallocate_cpu ptr) v = deallocate_cpu_page-IsValid a ptr v
step-IsValid a (deallocate_gpu addr) v = deallocate_gpu_page-IsValid a addr v
