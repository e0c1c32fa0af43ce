-- ===== src/Device.antt =====
-- src/device/device_helpers.cu, as seen from the device: an array in device memory is a list, a launch runs every
-- thread of its grid, in an order that the device chooses. The streams and `cudaGetLastError` are CUDA's.
-- A thread of the kernels here reads and writes one element, which no other thread touches.
pub mod Elements
pub mod Grid
pub mod Checksum
pub mod Race
pub mod Stores
pub mod Updates
pub mod Reduce
pub mod Totals
pub mod Sums
use gpu_vmm.Prelude.{
  ℕ, zero, suc, ◌+◌, ◌*◌, ◌/◌, ◌%◌, Bool, true, false, Option, none, some, List, [], ◌∷◌, ◌++◌,
  if◌then◌else◌, ltb, set, get_elem?, Run, ok, fault, ◌>>=◌,
}
use gpu_vmm.Common.Words.{u32_mod, u64_mod, u32_add, u64_add}

-- `pages[idx]`, which is `val`, becomes `after idx val`, in the threads below `num_elements`. An index past the
-- array is a fault.
unfoldable pub on_element : (ℕ → ℕ → ℕ) → ℕ → ℕ → List ℕ → Run (List ℕ)
on_element after num_elements idx pages =
    if ltb idx num_elements
    then elim (get_elem? pages idx) [ none ↦ fault | some val ↦ ok (set pages idx (after idx val)) ]
    else ok pages

-- `if (val > 1000000) pages[idx] = val + 1`
unfoldable pub read_element : ℕ → ℕ → ℕ
read_element idx val = if ltb 1000000 val then u32_add val 1 else val

-- The thread `idx` of `kernel_read_pages`.
unfoldable pub kernel_read_pages : ℕ → ℕ → List ℕ → Run (List ℕ)
unfolding on_element read_element
kernel_read_pages num_elements = on_element read_element num_elements

-- The sum in `size_t`, cut to `uint32_t`.
unfoldable pub write_element : ℕ → ℕ → ℕ → ℕ
write_element value idx val = u64_add value idx % u32_mod

unfoldable pub kernel_write_pages : ℕ → ℕ → ℕ → List ℕ → Run (List ℕ)
unfolding on_element write_element
kernel_write_pages value num_elements = on_element (write_element value) num_elements

-- The loop over the passes; a negative number of passes makes none.
unfoldable pub sequential_element : ℕ → ℕ → ℕ → ℕ
sequential_element zero idx val = val
sequential_element (suc passes) idx val = sequential_element passes idx (u32_add val 1)

unfoldable pub kernel_sequential_access : ℕ → ℕ → ℕ → List ℕ → Run (List ℕ)
unfolding on_element sequential_element
kernel_sequential_access num_passes num_elements =
    on_element (sequential_element num_passes) num_elements

abbrev pub block_size : ℕ
block_size = 256

-- `int grid_size = (num_elements + block_size - 1) / block_size`; the launch fails when the `int` is negative.
unfoldable pub grid_size : ℕ → ℕ
grid_size num_elements = u64_add num_elements 255 / block_size % u32_mod

-- `size_t idx = blockIdx.x * blockDim.x + threadIdx.x`: the operands are 32-bit unsigned, so is the sum.
unfoldable pub thread_index : ℕ → ℕ → ℕ
thread_index block thread = u32_add (block * block_size % u32_mod) thread

-- The indices of the threads of the blocks below the first argument.
unfoldable pub block_threads : ℕ → ℕ → List ℕ
unfolding thread_index
block_threads block zero = []
block_threads block (suc n) = thread_index block n ∷ block_threads block n

unfoldable pub threads : ℕ → List ℕ
unfolding block_threads
threads zero = []
threads (suc blocks) = block_threads blocks block_size ++ threads blocks

-- A launch, its threads in the order given.
unfoldable pub launch : (ℕ → List ℕ → Run (List ℕ)) → List ℕ → List ℕ → Run (List ℕ)
launch kernel [] pages = ok pages
launch kernel (idx ∷ order) pages = do pages₁ ← kernel idx pages; launch kernel order pages₁
