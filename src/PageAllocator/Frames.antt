-- ===== src/PageAllocator/Frames.antt =====
-- The addresses of the frames: distinct, never null, and taken back by the deallocators.
use native.Mathlib.Nat.{div-mul-le_self}
use gpu_vmm.Prelude.{
  ℕ, suc, ◌+◌, ◌-◌, ◌*◌, ◌/◌, ◌≤◌, ◌<◌, ◌≡◌, ◌≢◌, sym, ◌∙◌, ap, arith, length, ltb, leb, ◌==◌, ◌||◌,
  false,
}
use gpu_vmm.PageAllocator.Invariant.{IsValid}
use gpu_vmm.PageAllocator.{
  PageAllocator, gpu_base, cpu_frame, gpu_frame, deallocate_cpu_page, deallocate_gpu_page,
  release_cpu_frame, release_gpu_frame,
}

-- A byte of frame `i` lies in the pool.
byte_in_pool :
    (i offset n pool page : ℕ) → n ≡ pool / page → i < n → offset < page → i * page + offset < pool
byte_in_pool i offset n pool page e h k =
    let whole : n * page ≤ pool = rw e (div-mul-le_self pool page) in
    let below : suc i * page ≤ n * page = grind arith in grind arith

frame_of_byte : (i offset page : ℕ) → offset < page → (i * page + offset) / page ≡ i
frame_of_byte i offset page h = grind arith

module _ {a : PageAllocator} (v : IsValid a) where
  -- Any address inside a frame of the pool releases that frame.
  pub deallocate_cpu_page-inside :
      (i offset : ℕ)
      → i < length a.cpu_page_bitmap
      → offset < a.config.page_size
      → deallocate_cpu_page a (cpu_frame a i + offset) ≡ release_cpu_frame a i
  unfolding deallocate_cpu_page cpu_frame
  deallocate_cpu_page-inside i offset h k =
      let ptr = cpu_frame a i + offset in
      let inside =
        byte_in_pool i offset _ a.config.cpu_page_pool_size a.config.page_size v.cpu_frames h k in
      let diff : ptr - a.cpu_pool ≡ i * a.config.page_size + offset = omega arith in
      let nonnull : (ptr == 0) ≡ false = ground (arith, v.cpu_pool_pos) in
      let in_pool : (ltb ptr a.cpu_pool || leb a.config.cpu_page_pool_size (ptr - a.cpu_pool))
          ≡ false =
        ground arith in
      rw (nonnull, in_pool, diff, frame_of_byte i offset a.config.page_size k)

  -- The address of a GPU frame is computed with no wrap.
  pub gpu_frame_lem :
      (i : ℕ) → i < length a.gpu_page_bitmap → gpu_frame a i ≡ gpu_base + i * a.config.page_size
  unfolding gpu_frame
  gpu_frame_lem i h =
      let inside =
        byte_in_pool i 0 _ a.config.gpu_page_pool_size a.config.page_size v.gpu_frames h
          v.page_pos in
      omega arith

  pub deallocate_gpu_page-inside :
      (i offset : ℕ)
      → i < length a.gpu_page_bitmap
      → offset < a.config.page_size
      → deallocate_gpu_page a (gpu_frame a i + offset) ≡ release_gpu_frame a i
  unfolding deallocate_gpu_page
  deallocate_gpu_page-inside i offset h k =
      let addr = gpu_frame a i + offset in
      let diff : addr - gpu_base ≡ i * a.config.page_size + offset =
        omega (arith, gpu_frame_lem i h) in
      let above : ltb addr gpu_base ≡ false = ground (arith, gpu_frame_lem i h) in
      rw (above, diff, frame_of_byte i offset a.config.page_size k)

  pub cpu_frame-ne-zero : (i : ℕ) → cpu_frame a i ≢ 0
  unfolding cpu_frame
  cpu_frame-ne-zero i = omega (arith, v.cpu_pool_pos)

  pub gpu_frame-ne-zero : (i : ℕ) → i < length a.gpu_page_bitmap → gpu_frame a i ≢ 0
  gpu_frame-ne-zero i h = omega (arith, gpu_frame_lem i h)

  -- On a valid allocator, two bytes within CPU frames that have one address belong to one frame.
  pub cpu_frame_disjoint :
      (i j x y : ℕ)
      → x < a.config.page_size
      → y < a.config.page_size
      → cpu_frame a i + x ≡ cpu_frame a j + y
      → i ≡ j
  unfolding cpu_frame
  cpu_frame_disjoint i j x y h k e =
      let page = a.config.page_size in
      let same : i * page + x ≡ j * page + y = omega arith in
      sym (frame_of_byte i x page h) ∙ ap (λ (n : ℕ). n / page) same ∙ frame_of_byte j y page k

  pub gpu_frame_disjoint :
      (i j x y : ℕ)
      → i < length a.gpu_page_bitmap
      → j < length a.gpu_page_bitmap
      → x < a.config.page_size
      → y < a.config.page_size
      → gpu_frame a i + x ≡ gpu_frame a j + y
      → i ≡ j
  gpu_frame_disjoint i j x y p q h k e =
      let page = a.config.page_size in
      let same : i * page + x ≡ j * page + y =
        omega (arith, gpu_frame_lem i p, gpu_frame_lem j q) in
      sym (frame_of_byte i x page h) ∙ ap (λ (n : ℕ). n / page) same ∙ frame_of_byte j y page k
