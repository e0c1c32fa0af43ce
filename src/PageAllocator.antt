-- ===== src/PageAllocator.antt =====
-- src/vm/PageAllocator.h and src/vm/PageAllocator.cpp: two pools of page frames with bitmaps. The mutex
-- makes each member function one step. Addresses are numbers, and 0 is `nullptr`.
pub mod Bitmap
pub mod Invariant
pub mod Frames
pub mod Allocate
pub mod Release
use gpu_vmm.Prelude.{
  ℕ, zero, suc, ◌+◌, ◌-◌, ◌*◌, ◌/◌, ◌≡◌, Bool, true, false, ◌&&◌, ◌||◌, Option, none, some, List,
  [], ◌∷◌, ◌++◌, if◌then◌else◌, ltb, leb, ◌==◌, length, set, resize, get_elem?, not,
}
use gpu_vmm.Common.Words.{u64_mod, u64_add, u64_sub, u64_mul}
use Bitmap.{first_free, is_set}

pub record Config : Type 0 where
  pub page_size : ℕ
  pub cpu_page_pool_size : ℕ
  pub gpu_page_pool_size : ℕ
  pub use_pinned_memory : Bool
  pub use_gpu_simulator : Bool

-- `gpu_pool` is the size of the vector of that name: its bytes are never read or written.
pub record PageAllocator : Type 0 where
  pub config : Config
  pub cpu_pages_allocated : ℕ
  pub gpu_pages_allocated : ℕ
  pub cpu_pool : ℕ
  pub cpu_page_bitmap : List Bool
  pub gpu_pool : ℕ
  pub gpu_page_bitmap : List Bool

unfoldable pub create : Config → PageAllocator
create config = record {
  config = config;
  cpu_pages_allocated = 0;
  gpu_pages_allocated = 0;
  cpu_pool = 0;
  cpu_page_bitmap = [];
  gpu_pool = 0;
  gpu_page_bitmap = [];
}

-- The rest of `initialize` once the block at `pool` is there.
unfoldable pub with_pools : ℕ → PageAllocator → PageAllocator
with_pools pool a =
    let c = a.config in
    record a {
      cpu_pool = pool;
      cpu_page_bitmap = resize a.cpu_page_bitmap (c.cpu_page_pool_size / c.page_size) false;
      gpu_pool = if c.use_gpu_simulator then c.gpu_page_pool_size else a.gpu_pool;
      gpu_page_bitmap = resize a.gpu_page_bitmap (c.gpu_page_pool_size / c.page_size) false;
    }

-- `malloc` is the address that the system's function returns for the size; both branches on
-- `use_pinned_memory` make the same call. `none` is the exception that is thrown when it is null.
unfoldable pub initialize : (ℕ → ℕ) → PageAllocator → Option PageAllocator
unfolding with_pools
initialize malloc a =
    let pool = malloc a.config.cpu_page_pool_size in
    if pool == 0 then none else some (with_pools pool a)

-- The address of frame `i` of the CPU pool.
unfoldable pub cpu_frame : PageAllocator → ℕ → ℕ
cpu_frame a i = a.cpu_pool + i * a.config.page_size

abbrev pub gpu_base : ℕ
gpu_base = 0x100000000

-- The address of frame `i` of the GPU pool.
unfoldable pub gpu_frame : PageAllocator → ℕ → ℕ
gpu_frame a i = u64_add gpu_base (u64_mul i a.config.page_size)

-- The writes of `allocate_cpu_page` when the scan stops at frame `i`.
unfoldable pub take_cpu_frame : PageAllocator → ℕ → PageAllocator
take_cpu_frame a i = record a {
  cpu_page_bitmap = set a.cpu_page_bitmap i true;
  cpu_pages_allocated = u64_add a.cpu_pages_allocated 1;
}

-- The address of the first free frame, or 0.
unfoldable pub allocate_cpu_page : PageAllocator → PageAllocator × ℕ
unfolding cpu_frame take_cpu_frame
allocate_cpu_page a = elim (first_free a.cpu_page_bitmap) [
  | some i ↦ (take_cpu_frame a i, cpu_frame a i)
  | none ↦ (a, 0)
]

-- The writes of `allocate_gpu_page` when the scan stops at frame `i`.
unfoldable pub take_gpu_frame : PageAllocator → ℕ → PageAllocator
take_gpu_frame a i = record a {
  gpu_page_bitmap = set a.gpu_page_bitmap i true;
  gpu_pages_allocated = u64_add a.gpu_pages_allocated 1;
}

unfoldable pub allocate_gpu_page : PageAllocator → PageAllocator × ℕ
unfolding gpu_frame take_gpu_frame
allocate_gpu_page a = elim (first_free a.gpu_page_bitmap) [
  | some i ↦ (take_gpu_frame a i, gpu_frame a i)
  | none ↦ (a, 0)
]

-- The end of `deallocate_cpu_page`, with the frame's number.
unfoldable pub release_cpu_frame : PageAllocator → ℕ → PageAllocator
unfolding is_set
release_cpu_frame a i =
    if is_set a.cpu_page_bitmap i
    then record a {
      cpu_page_bitmap = set a.cpu_page_bitmap i false;
      cpu_pages_allocated = u64_sub a.cpu_pages_allocated 1;
    }
    else a

-- A negative offset is an address below the pool.
unfoldable pub deallocate_cpu_page : PageAllocator → ℕ → PageAllocator
unfolding release_cpu_frame
deallocate_cpu_page a ptr =
    if ptr == 0
    then a
    else if ltb ptr a.cpu_pool || leb a.config.cpu_page_pool_size (ptr - a.cpu_pool)
    then a
    else release_cpu_frame a ((ptr - a.cpu_pool) / a.config.page_size)

unfoldable pub release_gpu_frame : PageAllocator → ℕ → PageAllocator
unfolding is_set
release_gpu_frame a i =
    if is_set a.gpu_page_bitmap i
    then record a {
      gpu_page_bitmap = set a.gpu_page_bitmap i false;
      gpu_pages_allocated = u64_sub a.gpu_pages_allocated 1;
    }
    else a

unfoldable pub deallocate_gpu_page : PageAllocator → ℕ → PageAllocator
unfolding release_gpu_frame
deallocate_gpu_page a gpu_addr =
    if ltb gpu_addr gpu_base
    then a
    else release_gpu_frame a ((gpu_addr - gpu_base) / a.config.page_size)

unfoldable pub get_available_cpu_pages : PageAllocator → ℕ
get_available_cpu_pages a = u64_sub (length a.cpu_page_bitmap) a.cpu_pages_allocated

unfoldable pub get_available_gpu_pages : PageAllocator → ℕ
get_available_gpu_pages a = u64_sub (length a.gpu_page_bitmap) a.gpu_pages_allocated

unfoldable pub get_total_cpu_pages : PageAllocator → ℕ
get_total_cpu_pages a = length a.cpu_page_bitmap

unfoldable pub get_total_gpu_pages : PageAllocator → ℕ
get_total_gpu_pages a = length a.gpu_page_bitmap
