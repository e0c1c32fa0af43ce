-- ===== src/Vm/Ownership/Frames.antt =====
-- Ownership for the allocator and the page table together.
use mathlib.Core.Path.{fun_ext}
use gpu_vmm.Prelude.{
  arith, ℕ, ◌+◌, ◌≡◌, ◌<◌, refl, ap, true, Bool-cases, Option-cases, inl, inr, length, get_elem?-lt,
}
use gpu_vmm.PageAllocator.{
  deallocate_cpu_page, deallocate_gpu_page, PageAllocator, cpu_frame, gpu_frame, allocate_cpu_page,
  allocate_gpu_page, release_cpu_frame, release_gpu_frame,
}
use gpu_vmm.PageAllocator.Bitmap.{first_free, is_set, is_set-get_elem?}
use gpu_vmm.PageAllocator.Invariant.{IsValid}
use gpu_vmm.PageAllocator.Frames.{cpu_frame_disjoint, gpu_frame_disjoint}
use gpu_vmm.PageTable.{PageTable}
use gpu_vmm.Vm.Ownership.Owned.{Owned}
use gpu_vmm.Vm.Ownership.Table.{cpu_of, gpu_of}

-- The allocator is valid; every CPU address in the table is that of a frame in use, no two pages share one, and
-- every CPU frame in use is that of a page; and likewise for the GPU.
pub record Exclusive (a : PageAllocator) (t : PageTable) : Type 0 where
  pub valid : IsValid a
  pub cpu : Owned (cpu_frame a) (is_set a.cpu_page_bitmap) (cpu_of t)
  pub gpu : Owned (gpu_frame a) (is_set a.gpu_page_bitmap) (gpu_of t)

pub in_range_cpu :
    (a : PageAllocator) (i : ℕ) → is_set a.cpu_page_bitmap i ≡ true → i < length a.cpu_page_bitmap
in_range_cpu a i h = get_elem?-lt a.cpu_page_bitmap i true (is_set-get_elem? a.cpu_page_bitmap i h)

pub in_range_gpu :
    (a : PageAllocator) (i : ℕ) → is_set a.gpu_page_bitmap i ≡ true → i < length a.gpu_page_bitmap
in_range_gpu a i h = get_elem?-lt a.gpu_page_bitmap i true (is_set-get_elem? a.gpu_page_bitmap i h)

pub cpu_frame-injective :
    (a : PageAllocator) → IsValid a → (i j : ℕ) → cpu_frame a i ≡ cpu_frame a j → i ≡ j
cpu_frame-injective a v i j e =
    cpu_frame_disjoint v i j 0 0 v.page_pos v.page_pos (ap (λ n. n + 0) e)

pub gpu_frame-injective :
    (a : PageAllocator)
    → IsValid a
    → (i j : ℕ) → i < length a.gpu_page_bitmap
    → j < length a.gpu_page_bitmap
    → gpu_frame a i ≡ gpu_frame a j
    → i ≡ j
gpu_frame-injective a v i j p q e =
    gpu_frame_disjoint v i j 0 0 p q v.page_pos v.page_pos (ap (λ n. n + 0) e)

-- The fields that one pool's operations leave alone.
pub allocate_cpu_page_rest :
    (a : PageAllocator)
    → let b = (allocate_cpu_page a).0 in
      (b.gpu_page_bitmap ≡ a.gpu_page_bitmap) × (b.config ≡ a.config) × (b.cpu_pool ≡ a.cpu_pool)
unfolding allocate_cpu_page
allocate_cpu_page_rest a = elim (Option-cases (first_free a.cpu_page_bitmap)) [
  | inl e ↦ rw (e, allocate_cpu_page) (refl, refl, refl)
  | inr (i, e) ↦ rw (e, allocate_cpu_page) (refl, refl, refl)
]

pub allocate_gpu_page_rest :
    (a : PageAllocator)
    → let b = (allocate_gpu_page a).0 in
      (b.cpu_page_bitmap ≡ a.cpu_page_bitmap) × (b.config ≡ a.config) × (b.cpu_pool ≡ a.cpu_pool)
unfolding allocate_gpu_page
allocate_gpu_page_rest a = elim (Option-cases (first_free a.gpu_page_bitmap)) [
  | inl e ↦ rw (e, allocate_gpu_page) (refl, refl, refl)
  | inr (i, e) ↦ rw (e, allocate_gpu_page) (refl, refl, refl)
]

pub release_cpu_frame_rest :
    (a : PageAllocator) (i : ℕ)
    → let b = release_cpu_frame a i in
      (b.gpu_page_bitmap ≡ a.gpu_page_bitmap) × (b.config ≡ a.config) × (b.cpu_pool ≡ a.cpu_pool)
unfolding release_cpu_frame
release_cpu_frame_rest a i = elim (Bool-cases (is_set a.cpu_page_bitmap i)) [
  | inl e ↦ rw (e, release_cpu_frame) (refl, refl, refl)
  | inr e ↦ rw (e, release_cpu_frame) (refl, refl, refl)
]

pub release_gpu_frame_rest :
    (a : PageAllocator) (i : ℕ)
    → let b = release_gpu_frame a i in
      (b.cpu_page_bitmap ≡ a.cpu_page_bitmap) × (b.config ≡ a.config) × (b.cpu_pool ≡ a.cpu_pool)
unfolding release_gpu_frame
release_gpu_frame_rest a i = elim (Bool-cases (is_set a.gpu_page_bitmap i)) [
  | inl e ↦ rw (e, release_gpu_frame) (refl, refl, refl)
  | inr e ↦ rw (e, release_gpu_frame) (refl, refl, refl)
]

-- The addresses of the frames do not change.
pub cpu_frame_congr :
    (a b : PageAllocator)
    → b.config ≡ a.config
    → b.cpu_pool ≡ a.cpu_pool
    → cpu_frame b ≡ cpu_frame a
unfolding cpu_frame
cpu_frame_congr a b c p = fun_ext (λ i. rw (c, p))

pub gpu_frame_congr : (a b : PageAllocator) → b.config ≡ a.config → gpu_frame b ≡ gpu_frame a
unfolding gpu_frame
gpu_frame_congr a b c = fun_ext (λ i. rw c)

pub deallocate_cpu_page_config :
    (a : PageAllocator) (ptr : ℕ) → (deallocate_cpu_page a ptr).config ≡ a.config
unfolding deallocate_cpu_page release_cpu_frame
deallocate_cpu_page_config a ptr = ground arith

pub deallocate_gpu_page_config :
    (a : PageAllocator) (addr : ℕ) → (deallocate_gpu_page a addr).config ≡ a.config
unfolding deallocate_gpu_page release_gpu_frame
deallocate_gpu_page_config a addr = ground arith
