-- ===== src/Tests/Managers.antt =====
-- Managers with one page, page 5, at the address 80.
use gpu_vmm.Prelude.{
  ℕ, zero, suc, sym, ◌∙◌, ap, ◌+◌, ◌≤◌, ◌≡◌, refl, Bool, true, false, none, some, [], ◌∷◌, arith,
  if◌then◌else◌, ◌==◌,
}
use gpu_vmm.Prelude.Assoc.{find}
use gpu_vmm.Common.Counters.{reset}
use gpu_vmm.PageTable.{PageTable, PageTableEntry, blank, lookup_entry}
use gpu_vmm.PageAllocator.{PageAllocator, cpu_frame, gpu_frame}
use gpu_vmm.PageAllocator.Bitmap.{is_set, used}
use gpu_vmm.PageAllocator.Invariant
use gpu_vmm.Policies.{lru}
use gpu_vmm.Vm.State.{World, VmConfig, PageReplacementPolicy, Vm}
use gpu_vmm.Vm.Ownership.Owned.{Owned}
use gpu_vmm.Vm.Ownership.Table.{cpu_of, gpu_of}
use gpu_vmm.Vm.Ownership.Valid.{IsValid}
use gpu_vmm.Tests.Pools.{half_used, half_used-IsValid}
use gpu_vmm.Tests.Caches.{cache, cache-IsValid}

abbrev pub world : World
world = record { clock = λ n. 100 + n; first = λ pages. 0 }

-- Page 5 with its CPU frame, and with the GPU frame at `gpu`.
abbrev pub backed : ℕ → PageTableEntry
backed gpu = record blank {
  resident_on_cpu = true;
  is_dirty = true;
  is_valid = true;
  cpu_address = 4096;
  gpu_address = gpu;
}

abbrev pub table : ℕ → PageTable
table gpu = record { page_size = 16; num_pages = 4; entries = (5, backed gpu) ∷ [] }

abbrev pub sixteen_byte_pages : VmConfig
sixteen_byte_pages = record {
  page_size = 16;
  virtual_address_space = 64;
  gpu_memory = 32;
  tlb_size = 2;
  tlb_associativity = 2;
  replacement_policy = PageReplacementPolicy.lru;
  use_pinned_memory = false;
  use_gpu_simulator = true;
  enable_prefetch = false;
}

abbrev pub manager : PageAllocator → ℕ → Vm
manager a gpu = record {
  config = sixteen_byte_pages;
  perf_counters = reset;
  page_table = table gpu;
  allocator = a;
  tlb = cache;
  replacement_policy = lru (record { lru_queue = 5 ∷ []; active_pages = 5 ∷ []; max_pages = 8 });
  next_vpn = 6;
  vaddr_to_vpn_map = (80, 5) ∷ [];
  gpu_resident_pages = [];
  readings = 0;
  memory = λ a. 0;
}

-- The page is on the CPU only.
abbrev pub on_cpu : Vm
on_cpu = manager half_used 0

abbrev full : PageAllocator
full = record half_used { gpu_pages_allocated = 1; gpu_page_bitmap = true ∷ false ∷ [] }

full-IsValid : Invariant.IsValid full
unfolding used
full-IsValid = record {
  page_pos = omega arith;
  cpu_pool_pos = omega arith;
  cpu_pool_fits = omega arith;
  gpu_pool_fits = omega arith;
  cpu_frames = refl;
  gpu_frames = refl;
  cpu_counted = refl;
  gpu_counted = refl;
}

-- The page has a GPU frame too.
abbrev pub on_both : Vm
on_both = manager full 0x100000000

-- The only owner is page 5, of frame 0.
pub one_owner :
    (frame : ℕ → ℕ) (in_use : ℕ → Bool) (owner : ℕ → ℕ)
    → in_use 0 ≡ true
    → ((i : ℕ) → in_use i ≡ true → i ≡ 0)
    → ((v : ℕ) → owner v ≡ (if 5 == v then frame 0 else 0))
    → Owned frame in_use owner
one_owner frame in_use owner h only owns = record {
  covered = λ i used. (5, owns 5 ∙ sym (ap frame (only i used)));
  held = λ v nonzero. (0, h, ground (arith, owns v));
  alone = λ v w nonzero same. ground (arith, owns v, owns w);
}

pub no_owner :
    (frame : ℕ → ℕ) (in_use : ℕ → Bool) (owner : ℕ → ℕ)
    → ((i : ℕ) → in_use i ≡ false)
    → ((v : ℕ) → owner v ≡ 0)
    → Owned frame in_use owner
no_owner frame in_use owner idle owns = record {
  covered = λ i used. absurd (ground (arith, idle i));
  held = λ v nonzero. absurd (nonzero (owns v));
  alone = λ v w nonzero same. absurd (nonzero (owns v));
}

first_only : (i : ℕ) → is_set (true ∷ false ∷ []) i ≡ true → i ≡ 0
unfolding is_set
first_only zero h = refl
first_only (suc zero) h = ground arith
first_only (suc (suc i)) h = ground arith

pub none_set : (i : ℕ) → is_set (false ∷ false ∷ []) i ≡ false
unfolding is_set
none_set zero = refl
none_set (suc zero) = refl
none_set (suc (suc i)) = refl

pub cpu_of_table : (gpu v : ℕ) → cpu_of (table gpu) v ≡ (if 5 == v then 4096 else 0)
unfolding cpu_of lookup_entry find
cpu_of_table gpu v = ground arith

pub gpu_of_table : (gpu v : ℕ) → gpu_of (table gpu) v ≡ (if 5 == v then gpu else 0)
unfolding gpu_of lookup_entry find
gpu_of_table gpu v = ground arith

pub page_unused : (gpu v : ℕ) → 6 ≤ v → lookup_entry (table gpu) v ≡ none
unfolding lookup_entry find
page_unused gpu v h = ground arith

pub page_allocated : (vaddr start : ℕ) → find vaddr ((80, 5) ∷ []) ≡ some start → start ≤ 6
unfolding find
page_allocated vaddr start h = ground arith

pub on_cpu-IsValid : IsValid on_cpu
unfolding cpu_frame is_set
on_cpu-IsValid = record {
  exclusive = record {
    valid = half_used-IsValid;
    cpu =
        one_owner (cpu_frame half_used) (is_set half_used.cpu_page_bitmap) (cpu_of (table 0)) refl
          first_only (cpu_of_table 0);
    gpu =
        no_owner (gpu_frame half_used) (is_set half_used.gpu_page_bitmap) (gpu_of (table 0))
          none_set (λ v. ground (arith, gpu_of_table 0 v));
  };
  tlb = cache-IsValid;
  policy = (_, refl);
  page_size = refl;
  unused = page_unused 0;
  allocated = page_allocated;
}

pub on_both-IsValid : IsValid on_both
unfolding cpu_frame gpu_frame is_set
on_both-IsValid = record {
  exclusive = record {
    valid = full-IsValid;
    cpu =
        one_owner (cpu_frame full) (is_set full.cpu_page_bitmap) (cpu_of on_both.page_table) refl
          first_only (cpu_of_table 0x100000000);
    gpu =
        one_owner (gpu_frame full) (is_set full.gpu_page_bitmap) (gpu_of on_both.page_table) refl
          first_only (gpu_of_table 0x100000000);
  };
  tlb = cache-IsValid;
  policy = (_, refl);
  page_size = refl;
  unused = page_unused 0x100000000;
  allocated = page_allocated;
}
