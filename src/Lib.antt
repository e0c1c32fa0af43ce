-- ===== src/Lib.antt =====
-- Verification of the user-space GPU virtual memory manager.
--
-- The program simulates GPU virtual memory. `VirtualMemoryManager` owns five parts and drives them under one
-- lock: a page table, an allocator with a CPU pool and a simulated GPU pool, a TLB, a replacement policy and a
-- migration manager. `allocate` takes page numbers from the page table and frames from the allocator; mapping a
-- page to the GPU takes a GPU frame, asks the policy for a victim when there is none, and has the migration
-- manager update the page table; eviction gives the frame back and invalidates the page in the TLB.
--
--   Common          src/vm/Common.h: words of 32 and 64 bits, addresses, the FNV-1a hash, the counters
--   PageTable       src/vm/PageTable.h, src/vm/PageTable.cpp
--   PageAllocator   src/vm/PageAllocator.h, src/vm/PageAllocator.cpp
--   Tlb             src/vm/TLB.h, src/vm/TLB.cpp; Tlb/Set is one set
--   Policies        src/vm/Policies.h, src/vm/Policies.cpp; Policies/Lru and Policies/Clock are the subclasses
--   Migration       src/vm/MigrationManager.h, src/vm/MigrationManager.cpp; Migration/Workers is the queue with
--                   its worker threads, as a step relation; Migration/Monitor is the same at the grain of the
--                   mutex and of the condition variable, with the destructor
--   Vm              src/vm/VirtualMemoryManager.h, src/vm/VirtualMemoryManager.cpp: Vm/State the members,
--                   Vm/Lifecycle initialize and shutdown, Vm/Allocate allocate and free, Vm/Fault the mappings,
--                   page faults and eviction, Vm/Access touches, reads and writes. Vm/Ownership has the invariant
--                   of the manager, Vm/Ownership/Valid, and the proof for each operation; Vm/Session runs lists
--                   of public calls
--   DeviceMapped    the template of src/vm/VirtualMemoryManager.h that owns one allocation
--   Device          src/device/device_helpers.cu: three kernels with their launches, Device/Reduce the sum of
--                   kernel_checksum, Device/Race kernel_random_access, Device/Checksum compute_checksum
--   Video           src/examples/video_pipeline_sim.cpp: what the pipeline does to a frame, and Video/Batches the
--                   order of a pass over the frames
--   Particles       src/examples/nbody_gpu_vm.cpp: the simulation on an array of particles
--   Benchmark       src/bench/benchmark_app.cpp: the three benchmarks on the manager
--   Tests           the theorems at concrete inputs
--
-- An operation has the name of its C++ function. A member function that holds the lock of its object is one
-- step, a function from the old state to the new one; the modules under Migration/Workers split the work of
-- several threads into the regions under `queue_mutex_`. Numbers are natural numbers, with the wrap of `size_t`,
-- `uint64_t` and `uint32_t` written out. A pointer is its address, and 0 is `nullptr`; a pointer to a page table
-- entry is the page number. The hash maps are association lists, and no order of theirs is relied on: the
-- element that an iteration over the resident pages meets first is an argument. So are the clock and the address
-- that `malloc` returns. `malloc` returns null or a block below 2 ^ 63 bytes, so the signed comparison of an
-- offset with the size of the pool is that of the numbers. Undefined behaviour (a division by zero, an index out
-- of range, a copy outside the pool, an access past a frame or past the array of a kernel) is the value `fault`.
--
-- Loops over a container are recursion on the list, and loops that count recursion on the rounds left. Two loops
-- of the CLOCK policy have fuel: `trim` has the length of the vector, since each round takes one entry off, and
-- `select_loop` has one round more than there are entries, since each round but the last clears a bit.
--
-- The threads of `kernel_read_pages`, `kernel_write_pages` and `kernel_sequential_access` touch their own element
-- only, so a launch runs them one after another, in any order. The threads of `kernel_checksum` meet in the
-- shuffles of their warp and block, which are functions of the lane; what a lane reads of one that does not execute
-- the shuffle is a parameter. The threads of `kernel_random_access` share elements, so their loads and stores are
-- the actions of a schedule.
--
-- A benchmark takes from outside what it does not compute: the clock, `rand`, the distribution over the pages, and
-- a division on `double`. A field that a benchmark does not set keeps the value that it had before.
--
-- A frame of the video pipeline is the list of the bytes behind its pointer. The particles compute with operations on
-- `float` that are parameters, and nothing is assumed of them. A pass over batches has fuel, one round more than
-- there are frames, since a batch has at least one frame.
--
-- Not modelled: logging and printing; of src/device/device_helpers.cu `kernel_stencil_1d`, which computes in
-- floating point; the output of the benchmark; of the two examples what `main` does beyond its loops: it writes to
-- the addresses that the manager gives, which are no addresses of memory; the unit tests.
pub mod Prelude
pub mod Common
pub mod PageTable
pub mod PageAllocator
pub mod Tlb
pub mod Policies
pub mod Migration
pub mod Vm
pub mod DeviceMapped
pub mod Device
pub mod Benchmark
pub mod Video
pub mod Particles
pub mod Tests
