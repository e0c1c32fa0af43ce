-- ===== src/PageAllocator/Allocate.antt =====
-- What the allocator promises: which frame an allocation returns, and how the operations undo one
-- another. The abstract view of a pool is the set of its frames in use, as a test on frame numbers.
use gpu_vmm.Prelude.{
  ℕ, ◌+◌, ◌<◌, ◌≡◌, ◌≢◌, refl, true, false, arith, length, set, ◌⊎◌, inl, inr, Option-cases,
  length-set, get_elem?-lt, if◌then◌else◌, ◌==◌,
}
use gpu_vmm.PageAllocator.Bitmap.{
  first_free, is_set, first_free-some, first_free-none, used-set-true, used-le-length, is_set-set,
}
use gpu_vmm.PageAllocator.Invariant.{IsValid, frames-lt}
use gpu_vmm.PageAllocator.Frames.{cpu_frame-ne-zero, gpu_frame-ne-zero}
use gpu_vmm.PageAllocator.{
  PageAllocator, cpu_frame, gpu_frame, allocate_cpu_page, allocate_gpu_page,
  get_available_cpu_pages, get_available_gpu_pages,
}

-- The outcome of an allocation: frame `i`, which was free while all below it were in use, is now in
-- use, no other frame changes, and one page less is available.
pub record TakesCpu (a : PageAllocator) (i : ℕ) (r : PageAllocator × ℕ) : Type 0 where
  pub in_pool : i < length a.cpu_page_bitmap
  pub address : r.1 ≡ cpu_frame a i
  pub nonnull : r.1 ≢ 0
  pub was_free : is_set a.cpu_page_bitmap i ≡ false
  pub first : (j : ℕ) → j < i → is_set a.cpu_page_bitmap j ≡ true
  pub in_use :
      (j : ℕ) → is_set r.0.cpu_page_bitmap j ≡ (if i == j then true else is_set a.cpu_page_bitmap j)
  pub available : get_available_cpu_pages r.0 + 1 ≡ get_available_cpu_pages a

-- On a valid allocator `allocate_cpu_page` either takes the first free frame, returns its non-null address and
-- leaves one page less available, or returns null and changes nothing, with no page available.
pub allocate_cpu_page_cases :
    (a : PageAllocator)
    → IsValid a
    → ((i : ℕ) × TakesCpu a i (allocate_cpu_page a))
      ⊎ ((allocate_cpu_page a ≡ (a, 0)) × (get_available_cpu_pages a ≡ 0))
unfolding allocate_cpu_page get_available_cpu_pages is_set
allocate_cpu_page_cases a v = elim (Option-cases (first_free a.cpu_page_bitmap)) [
  | inl e ↦ inr (
    rw (e, allocate_cpu_page),
    omega (
      arith,
      first_free-none a.cpu_page_bitmap e,
      v.cpu_counted,
      frames-lt _ _ _ v.cpu_frames (omega (arith, v.cpu_pool_fits, v.cpu_pool_pos)),
    ),
  )
  | inr (i, e) ↦
      let free = first_free-some a.cpu_page_bitmap i e in
      let here = get_elem?-lt a.cpu_page_bitmap i false free.0 in
      let n = used-set-true a.cpu_page_bitmap i free.0 in
      let le = used-le-length (set a.cpu_page_bitmap i true) in
      let len = length-set a.cpu_page_bitmap i true in
      let small = frames-lt _ _ _ v.cpu_frames (omega (arith, v.cpu_pool_fits, v.cpu_pool_pos)) in
      let counted = v.cpu_counted in
      inl (
        i,
        rw (e, allocate_cpu_page)
            (record {
              in_pool = here;
              address = refl;
              nonnull = cpu_frame-ne-zero v i;
              was_free = rw (free.0, is_set);
              first = λ j lt. rw (free.1 j lt, is_set);
              in_use = λ j. is_set-set a.cpu_page_bitmap i j true here;
              available = omega arith;
            }),
      )
]

-- The same for the GPU pool: frame `i`, which was free while all below it were in use, is now in
-- use, no other frame changes, and one page less is available.
pub record TakesGpu (a : PageAllocator) (i : ℕ) (r : PageAllocator × ℕ) : Type 0 where
  pub in_pool : i < length a.gpu_page_bitmap
  pub address : r.1 ≡ gpu_frame a i
  pub nonnull : r.1 ≢ 0
  pub was_free : is_set a.gpu_page_bitmap i ≡ false
  pub first : (j : ℕ) → j < i → is_set a.gpu_page_bitmap j ≡ true
  pub in_use :
      (j : ℕ) → is_set r.0.gpu_page_bitmap j ≡ (if i == j then true else is_set a.gpu_page_bitmap j)
  pub available : get_available_gpu_pages r.0 + 1 ≡ get_available_gpu_pages a

-- On a valid allocator `allocate_gpu_page` either takes the first free frame, returns its non-null address and
-- leaves one page less available, or returns null and changes nothing, with no page available.
pub allocate_gpu_page_cases :
    (a : PageAllocator)
    → IsValid a
    → ((i : ℕ) × TakesGpu a i (allocate_gpu_page a))
      ⊎ ((allocate_gpu_page a ≡ (a, 0)) × (get_available_gpu_pages a ≡ 0))
unfolding allocate_gpu_page get_available_gpu_pages is_set
allocate_gpu_page_cases a v = elim (Option-cases (first_free a.gpu_page_bitmap)) [
  | inl e ↦ inr (
    rw (e, allocate_gpu_page),
    omega (
      arith,
      first_free-none a.gpu_page_bitmap e,
      v.gpu_counted,
      frames-lt _ _ _ v.gpu_frames (omega (arith, v.gpu_pool_fits)),
    ),
  )
  | inr (i, e) ↦
      let free = first_free-some a.gpu_page_bitmap i e in
      let here = get_elem?-lt a.gpu_page_bitmap i false free.0 in
      let n = used-set-true a.gpu_page_bitmap i free.0 in
      let le = used-le-length (set a.gpu_page_bitmap i true) in
      let len = length-set a.gpu_page_bitmap i true in
      let small = frames-lt _ _ _ v.gpu_frames (omega (arith, v.gpu_pool_fits)) in
      let counted = v.gpu_counted in
      inl (
        i,
        rw (e, allocate_gpu_page)
            (record {
              in_pool = here;
              address = refl;
              nonnull = gpu_frame-ne-zero v i here;
              was_free = rw (free.0, is_set);
              first = λ j lt. rw (free.1 j lt, is_set);
              in_use = λ j. is_set-set a.gpu_page_bitmap i j true here;
              available = omega arith;
            }),
      )
]
