-- ===== src/Tests/Pools.antt =====
-- An allocator with two frames of 16 bytes in each pool, its first CPU frame in use.
use gpu_vmm.Prelude.{ℕ, ◌+◌, ◌≡◌, ◌≢◌, ◌⊎◌, refl, true, false, [], ◌∷◌, arith}
use gpu_vmm.PageAllocator.{
  Config, PageAllocator, cpu_frame, allocate_cpu_page, allocate_gpu_page, deallocate_cpu_page,
  get_available_cpu_pages,
}
use gpu_vmm.PageAllocator.Bitmap.{used, first_free}
use gpu_vmm.PageAllocator.Invariant.{Fits, IsValid}
use gpu_vmm.PageAllocator.Allocate.{TakesCpu, allocate_cpu_page_cases}
use gpu_vmm.PageAllocator.Release.{deallocate-allocate_cpu_page}

abbrev pub two_frames : Config
two_frames = record {
  page_size = 16;
  cpu_page_pool_size = 32;
  gpu_page_pool_size = 32;
  use_pinned_memory = false;
  use_gpu_simulator = true;
}

abbrev pub half_used : PageAllocator
half_used = record {
  config = two_frames;
  cpu_pages_allocated = 1;
  gpu_pages_allocated = 0;
  cpu_pool = 4096;
  cpu_page_bitmap = true ∷ false ∷ [];
  gpu_pool = 32;
  gpu_page_bitmap = false ∷ false ∷ [];
}

pub half_used-IsValid : IsValid half_used
unfolding used
half_used-IsValid = record {
  page_pos = omega arith;
  cpu_pool_pos = omega arith;
  cpu_pool_fits = omega arith;
  gpu_pool_fits = omega arith;
  cpu_frames = refl;
  gpu_frames = refl;
  cpu_counted = refl;
  gpu_counted = refl;
}

abbrev heap : ℕ → ℕ
heap bytes = 4096

heap-Fits : Fits heap two_frames
heap-Fits = record { page_pos = omega arith; block_fits = omega arith; gpu_fits = omega arith }

allocate_cpu_page_cases_example :
    ((i : ℕ) × TakesCpu half_used i (allocate_cpu_page half_used))
    ⊎ ((allocate_cpu_page half_used ≡ (half_used, 0)) × (get_available_cpu_pages half_used ≡ 0))
allocate_cpu_page_cases_example = allocate_cpu_page_cases half_used half_used-IsValid

got_cpu_page : (allocate_cpu_page half_used).1 ≢ 0
unfolding allocate_cpu_page cpu_frame first_free
got_cpu_page = ground arith

got_gpu_page : (allocate_gpu_page half_used).1 ≢ 0
unfolding allocate_gpu_page first_free
got_gpu_page = ground arith

deallocate-allocate_cpu_page_example :
    deallocate_cpu_page (allocate_cpu_page half_used).0 ((allocate_cpu_page half_used).1 + 3)
    ≡ half_used
deallocate-allocate_cpu_page_example =
    deallocate-allocate_cpu_page half_used 3 half_used-IsValid (omega arith) got_cpu_page
