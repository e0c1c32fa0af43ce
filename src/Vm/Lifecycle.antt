-- ===== src/Vm/Lifecycle.antt =====
-- `initialize` and `shutdown`, and the guard on `initialized_` that every public operation begins with.
use gpu_vmm.Prelude.{ℕ, Bool, none, some, [], if◌then◌else◌, ◌==◌, Run, ok, fault, ◌>>=◌}
use gpu_vmm.Common.Counters.{PerfCounters, reset}
use gpu_vmm.PageTable
use gpu_vmm.PageTable.{PageTable}
use gpu_vmm.PageAllocator
use gpu_vmm.Tlb
use gpu_vmm.Policies.{ReplacementPolicy}
use gpu_vmm.Policies.Lru
use gpu_vmm.Policies.Clock
use gpu_vmm.Policies
use gpu_vmm.Vm.State.{World, PageReplacementPolicy, VmConfig, Vm}
use gpu_vmm.Vm.Allocate

-- A manager that is not initialized keeps its counters. `failed` is one whose `initialize` threw: it keeps
-- the page table that it had made.
pub data Manager : Type 0 where
  stopped : PerfCounters → Manager
  failed : PerfCounters → PageTable → Manager
  running : Vm → Manager

unfoldable pub allocator_config : VmConfig → PageAllocator.Config
allocator_config c = record {
  page_size = c.page_size;
  cpu_page_pool_size = c.gpu_memory;
  gpu_page_pool_size = c.gpu_memory;
  use_pinned_memory = c.use_pinned_memory;
  use_gpu_simulator = c.use_gpu_simulator;
}

unfoldable pub tlb_config : VmConfig → Tlb.Config
tlb_config c = record { tlb_size = c.tlb_size; associativity = c.tlb_associativity }

unfoldable pub make_policy : PageReplacementPolicy → ReplacementPolicy
make_policy PageReplacementPolicy.lru = Policies.lru (Lru.create 65536)
make_policy PageReplacementPolicy.clock = Policies.clock (Clock.create 65536)

-- What the process keeps for the manager: the counters, the bytes of memory, the clock's readings so far.
pub record Process : Type 0 where
  pub counters : PerfCounters
  pub memory : ℕ → ℕ
  pub readings : ℕ

-- The manager that `initialize` ends with.
unfoldable pub assemble :
    Process → VmConfig → PageTable → PageAllocator.PageAllocator → Tlb.Tlb → Manager
unfolding make_policy
assemble process c table allocator tlb = running (record {
  config = c;
  perf_counters = process.counters;
  page_table = table;
  allocator = allocator;
  tlb = tlb;
  replacement_policy = make_policy c.replacement_policy;
  next_vpn = 0;
  vaddr_to_vpn_map = [];
  gpu_resident_pages = [];
  readings = process.readings;
  memory = process.memory;
})

-- The rest of `initialize` after its guard. A page size of 0 divides by zero in `PageTable::initialize`.
unfoldable pub build : (ℕ → ℕ) → Process → VmConfig → Run Manager
unfolding allocator_config tlb_config assemble
build malloc process c =
    if c.page_size == 0
    then fault
    else (let table = PageTable.initialize (PageTable.create c.page_size) c.virtual_address_space in
        elim (PageAllocator.initialize malloc (PageAllocator.create (allocator_config c))) [
          | none ↦ ok (failed process.counters table)
          | some allocator ↦ do
            tlb ← Tlb.initialize (Tlb.create (tlb_config c))
            ok (assemble process c table allocator tlb)
        ])

-- A second `initialize` of a running manager does nothing.
unfoldable pub initialize : (ℕ → ℕ) → Process → Manager → VmConfig → Run Manager
unfolding build
initialize malloc process (running s) c = ok (running s)
initialize malloc process (stopped _) c = build malloc process c
initialize malloc process (failed _ _) c = build malloc process c

unfoldable pub shutdown : Manager → Manager
shutdown (running s) = stopped s.perf_counters
shutdown (stopped c) = stopped c
shutdown (failed c t) = failed c t

-- `if (!initialized_) return;`
unfoldable pub when_running : (Vm → Run Vm) → Manager → Run Manager
when_running op (running s) = do s₁ ← op s; ok (running s₁)
when_running op (stopped c) = ok (stopped c)
when_running op (failed c t) = ok (failed c t)

-- `allocate` with its guard on `initialized_`.
unfoldable pub allocate : World → Manager → ℕ → Bool → Manager × ℕ
unfolding Allocate.allocate
allocate w (running s) bytes prefetch =
    let r = Allocate.allocate w s bytes prefetch in (running r.0, r.1)
allocate w (stopped c) bytes prefetch = (stopped c, 0)
allocate w (failed c t) bytes prefetch = (failed c t, 0)

-- `free` with its guard.
unfoldable pub free : Manager → ℕ → Run Manager
unfolding when_running Allocate.free
free manager vaddr = when_running (λ s. Allocate.free s vaddr) manager

-- The counters outlive the parts of the manager.
unfoldable pub get_perf_counters : Manager → PerfCounters
get_perf_counters (running s) = s.perf_counters
get_perf_counters (stopped c) = c
get_perf_counters (failed c t) = c

unfoldable pub reset_counters : Manager → Manager
reset_counters (running s) = running (record s { perf_counters = reset })
reset_counters (stopped c) = stopped reset
reset_counters (failed c t) = failed reset t
