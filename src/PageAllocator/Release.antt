-- ===== src/PageAllocator/Release.antt =====
-- Taking a frame back undoes the allocation, once.
use gpu_vmm.Prelude.{
  ℕ, ◌+◌, ◌<◌, ◌≡◌, ◌≢◌, refl, ◌∙◌, true, false, some, arith, length, set, get_elem?, inl, inr,
  Option-cases, Bool-cases, length-set, get_elem?-lt,
}
use gpu_vmm.Common.Words.{u64_add, u64_sub}
use gpu_vmm.PageAllocator.Bitmap.{
  first_free, is_set, first_free-some, used-le-length, set_back, is_set-set,
}
use gpu_vmm.PageAllocator.Invariant.{
  IsValid, deallocate_cpu_page-IsValid, deallocate_gpu_page-IsValid, frames-lt,
  allocate_cpu_page-IsValid, allocate_gpu_page-IsValid,
}
use gpu_vmm.PageAllocator.Frames.{deallocate_cpu_page-inside, deallocate_gpu_page-inside}
use gpu_vmm.PageAllocator.{
  PageAllocator, cpu_frame, gpu_frame, allocate_cpu_page, allocate_gpu_page, deallocate_cpu_page,
  deallocate_gpu_page, release_cpu_frame, release_gpu_frame, take_cpu_frame, take_gpu_frame,
}

release-take_cpu_frame :
    (a : PageAllocator) (i : ℕ)
    → IsValid a
    → get_elem? a.cpu_page_bitmap i ≡ some false
    → release_cpu_frame (take_cpu_frame a i) i ≡ a
unfolding release_cpu_frame take_cpu_frame
release-take_cpu_frame a i v free =
    let n = used-le-length a.cpu_page_bitmap in
    let small = frames-lt _ _ _ v.cpu_frames (omega (arith, v.cpu_pool_fits, v.cpu_pool_pos)) in
    let counted = v.cpu_counted in
    let here = get_elem?-lt a.cpu_page_bitmap i false free in
    let held : is_set (set a.cpu_page_bitmap i true) i ≡ true =
      ground (arith, is_set-set a.cpu_page_bitmap i i true here) in
    let same : u64_sub (u64_add a.cpu_pages_allocated 1) 1 ≡ a.cpu_pages_allocated = omega arith in
    rw (release_cpu_frame, take_cpu_frame, held, set_back a.cpu_page_bitmap i free, same)

-- On a valid allocator, when `allocate_cpu_page` does not return null, handing its frame back, by any address
-- inside it, leaves the allocator exactly as it was before the allocation.
pub deallocate-allocate_cpu_page :
    (a : PageAllocator) (offset : ℕ)
    → IsValid a
    → offset < a.config.page_size
    → (allocate_cpu_page a).1 ≢ 0
    → deallocate_cpu_page (allocate_cpu_page a).0 ((allocate_cpu_page a).1 + offset) ≡ a
unfolding allocate_cpu_page
deallocate-allocate_cpu_page a offset v k h = elim (Option-cases (first_free a.cpu_page_bitmap)) [
  | inl e ↦ absurd (h (rw (e, allocate_cpu_page)))
  | inr (i, e) ↦
      let free = (first_free-some a.cpu_page_bitmap i e).0 in
      let b = take_cpu_frame a i in
      let w : IsValid b = rw (e, allocate_cpu_page) at (allocate_cpu_page-IsValid a v) in
      let here : i < length b.cpu_page_bitmap =
        omega (
          arith,
          get_elem?-lt a.cpu_page_bitmap i false free,
          length-set a.cpu_page_bitmap i true,
        ) in
      rw (e, allocate_cpu_page)
        (deallocate_cpu_page-inside w i offset here k ∙ release-take_cpu_frame a i v free)
]

release-take_gpu_frame :
    (a : PageAllocator) (i : ℕ)
    → IsValid a
    → get_elem? a.gpu_page_bitmap i ≡ some false
    → release_gpu_frame (take_gpu_frame a i) i ≡ a
unfolding release_gpu_frame take_gpu_frame
release-take_gpu_frame a i v free =
    let n = used-le-length a.gpu_page_bitmap in
    let small = frames-lt _ _ _ v.gpu_frames (omega (arith, v.gpu_pool_fits)) in
    let counted = v.gpu_counted in
    let here = get_elem?-lt a.gpu_page_bitmap i false free in
    let held : is_set (set a.gpu_page_bitmap i true) i ≡ true =
      ground (arith, is_set-set a.gpu_page_bitmap i i true here) in
    let same : u64_sub (u64_add a.gpu_pages_allocated 1) 1 ≡ a.gpu_pages_allocated = omega arith in
    rw (release_gpu_frame, take_gpu_frame, held, set_back a.gpu_page_bitmap i free, same)

-- On a valid allocator, when `allocate_gpu_page` does not return null, handing its frame back, by any address
-- inside it, leaves the allocator exactly as it was before the allocation.
pub deallocate-allocate_gpu_page :
    (a : PageAllocator) (offset : ℕ)
    → IsValid a
    → offset < a.config.page_size
    → (allocate_gpu_page a).1 ≢ 0
    → deallocate_gpu_page (allocate_gpu_page a).0 ((allocate_gpu_page a).1 + offset) ≡ a
unfolding allocate_gpu_page
deallocate-allocate_gpu_page a offset v k h = elim (Option-cases (first_free a.gpu_page_bitmap)) [
  | inl e ↦ absurd (h (rw (e, allocate_gpu_page)))
  | inr (i, e) ↦
      let free = (first_free-some a.gpu_page_bitmap i e).0 in
      let b = take_gpu_frame a i in
      let w : IsValid b = rw (e, allocate_gpu_page) at (allocate_gpu_page-IsValid a v) in
      let here : i < length b.gpu_page_bitmap =
        omega (
          arith,
          get_elem?-lt a.gpu_page_bitmap i false free,
          length-set a.gpu_page_bitmap i true,
        ) in
      rw (e, allocate_gpu_page)
        (deallocate_gpu_page-inside w i offset here k ∙ release-take_gpu_frame a i v free)
]

release_cpu_frame_twice :
    (a : PageAllocator) (i : ℕ)
    → i < length a.cpu_page_bitmap
    → release_cpu_frame (release_cpu_frame a i) i ≡ release_cpu_frame a i
unfolding release_cpu_frame
release_cpu_frame_twice a i h = elim (Bool-cases (is_set a.cpu_page_bitmap i)) [
  | inr e ↦ rw (e, release_cpu_frame) (rw (e, release_cpu_frame))
  | inl e ↦
      let clear : is_set (set a.cpu_page_bitmap i false) i ≡ false =
        ground (arith, is_set-set a.cpu_page_bitmap i i false h) in
      rw (e, release_cpu_frame) (rw (clear, release_cpu_frame))
]

release_cpu_frame-frames :
    (a : PageAllocator) (i : ℕ)
    → (cpu_frame (release_cpu_frame a i) i ≡ cpu_frame a i)
      × (length (release_cpu_frame a i).cpu_page_bitmap ≡ length a.cpu_page_bitmap)
      × ((release_cpu_frame a i).config.page_size ≡ a.config.page_size)
unfolding release_cpu_frame cpu_frame
release_cpu_frame-frames a i = elim (Bool-cases (is_set a.cpu_page_bitmap i)) [
  | inr e ↦ rw (e, release_cpu_frame) (refl, refl, refl)
  | inl e ↦ rw (e, release_cpu_frame) (refl, length-set a.cpu_page_bitmap i false, refl)
]

-- On a valid allocator, handing a CPU frame of the pool back twice, by any addresses inside it, leaves the
-- allocator as handing it back once does.
pub deallocate_cpu_page_twice :
    (a : PageAllocator) (i x y : ℕ)
    → IsValid a
    → i < length a.cpu_page_bitmap
    → x < a.config.page_size
    → y < a.config.page_size
    → deallocate_cpu_page (deallocate_cpu_page a (cpu_frame a i + x)) (cpu_frame a i + y)
      ≡ deallocate_cpu_page a (cpu_frame a i + x)
deallocate_cpu_page_twice a i x y v h p q =
    let b = release_cpu_frame a i in
    let (frame, len, page) = release_cpu_frame-frames a i in
    let w : IsValid b =
      rw (deallocate_cpu_page-inside v i x h p) at
        (deallocate_cpu_page-IsValid a (cpu_frame a i + x) v) in
    rw (deallocate_cpu_page-inside v i x h p) (
      rw (← frame)
        (deallocate_cpu_page-inside w i y (rw len h) (rw page q) ∙ release_cpu_frame_twice a i h))

release_gpu_frame_twice :
    (a : PageAllocator) (i : ℕ)
    → i < length a.gpu_page_bitmap
    → release_gpu_frame (release_gpu_frame a i) i ≡ release_gpu_frame a i
unfolding release_gpu_frame
release_gpu_frame_twice a i h = elim (Bool-cases (is_set a.gpu_page_bitmap i)) [
  | inr e ↦ rw (e, release_gpu_frame) (rw (e, release_gpu_frame))
  | inl e ↦
      let clear : is_set (set a.gpu_page_bitmap i false) i ≡ false =
        ground (arith, is_set-set a.gpu_page_bitmap i i false h) in
      rw (e, release_gpu_frame) (rw (clear, release_gpu_frame))
]

release_gpu_frame-frames :
    (a : PageAllocator) (i : ℕ)
    → (gpu_frame (release_gpu_frame a i) i ≡ gpu_frame a i)
      × (length (release_gpu_frame a i).gpu_page_bitmap ≡ length a.gpu_page_bitmap)
      × ((release_gpu_frame a i).config.page_size ≡ a.config.page_size)
unfolding release_gpu_frame gpu_frame
release_gpu_frame-frames a i = elim (Bool-cases (is_set a.gpu_page_bitmap i)) [
  | inr e ↦ rw (e, release_gpu_frame) (refl, refl, refl)
  | inl e ↦ rw (e, release_gpu_frame) (refl, length-set a.gpu_page_bitmap i false, refl)
]

-- Handing a GPU frame back twice is handing it back once: the second call finds the frame free.
pub deallocate_gpu_page_twice :
    (a : PageAllocator) (i x y : ℕ)
    → IsValid a
    → i < length a.gpu_page_bitmap
    → x < a.config.page_size
    → y < a.config.page_size
    → deallocate_gpu_page (deallocate_gpu_page a (gpu_frame a i + x)) (gpu_frame a i + y)
      ≡ deallocate_gpu_page a (gpu_frame a i + x)
deallocate_gpu_page_twice a i x y v h p q =
    let b = release_gpu_frame a i in
    let (frame, len, page) = release_gpu_frame-frames a i in
    let w : IsValid b =
      rw (deallocate_gpu_page-inside v i x h p) at
        (deallocate_gpu_page-IsValid a (gpu_frame a i + x) v) in
    rw (deallocate_gpu_page-inside v i x h p) (
      rw (← frame)
        (deallocate_gpu_page-inside w i y (rw len h) (rw page q) ∙ release_gpu_frame_twice a i h))
