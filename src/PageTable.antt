-- ===== src/PageTable.antt =====
-- src/vm/PageTable.h and src/vm/PageTable.cpp. The reader-writer lock makes each member function one
-- step, so the table is passed through. A pointer is a number, and 0 is `nullptr`; a pointer to an
-- entry is its page number, since the entries of an `unordered_map` do not move. A function that reads
-- the clock takes the reading `now`.
pub mod Range
pub mod Residency
use gpu_vmm.Prelude.{
  ℕ, zero, suc, ◌+◌, ◌/◌, ◌≡◌, Bool, true, false, Option, none, some, List, [], ◌∷◌, if◌then◌else◌,
}
use gpu_vmm.Prelude.Assoc.{find, insert, erase, modify}
use gpu_vmm.Common.Words.{u64_add, u32_add}

pub record PageTableEntry : Type 0 where
  pub resident_on_cpu : Bool
  pub resident_on_gpu : Bool
  pub is_dirty : Bool
  pub is_pinned : Bool
  pub is_valid : Bool
  pub cpu_address : ℕ
  pub gpu_address : ℕ
  pub access_timestamp_us : ℕ
  pub access_count : ℕ
  pub clock_hand : ℕ

-- The default constructor.
abbrev pub blank : PageTableEntry
blank = record {
  resident_on_cpu = false;
  resident_on_gpu = false;
  is_dirty = false;
  is_pinned = false;
  is_valid = false;
  cpu_address = 0;
  gpu_address = 0;
  access_timestamp_us = 0;
  access_count = 0;
  clock_hand = 0;
}

pub record PageTable : Type 0 where
  pub page_size : ℕ
  pub num_pages : ℕ
  pub entries : List (ℕ × PageTableEntry)

-- The constructor.
unfoldable pub create : ℕ → PageTable
create page_size = record { page_size = page_size; num_pages = 0; entries = [] }

unfoldable pub initialize : PageTable → ℕ → PageTable
initialize t virtual_space_size = record t {
  entries = [];
  num_pages = virtual_space_size / t.page_size;
}

-- `lookup_entry`, and the const `get_entry`, which has the same body.
unfoldable pub lookup_entry : PageTable → ℕ → Option PageTableEntry
lookup_entry t vpn = find vpn t.entries

-- The other `get_entry` adds a blank entry where there is none.
unfoldable pub get_entry : PageTable → ℕ → PageTable × PageTableEntry
get_entry t vpn = elim (find vpn t.entries) [
  | some e ↦ (t, e)
  | none ↦ (record t { entries = insert vpn blank t.entries }, blank)
]

-- A write through a pointer to the entry of `vpn`, if there is one.
abbrev pub write : (PageTableEntry → PageTableEntry) → PageTable → ℕ → PageTable
write f t vpn = record t { entries = modify vpn f t.entries }

unfoldable pub set_cpu_resident : ℕ → PageTable → ℕ → ℕ → PageTable
set_cpu_resident now t vpn cpu_addr =
    write
      (λ e. record e { resident_on_cpu = true; cpu_address = cpu_addr; access_timestamp_us = now })
      t vpn

unfoldable pub set_gpu_resident : ℕ → PageTable → ℕ → ℕ → PageTable
set_gpu_resident now t vpn gpu_addr =
    write
      (λ e. record e { resident_on_gpu = true; gpu_address = gpu_addr; access_timestamp_us = now })
      t vpn

unfoldable pub mark_dirty : PageTable → ℕ → PageTable
mark_dirty = write (λ e. record e { is_dirty = true })

unfoldable pub clear_dirty : PageTable → ℕ → PageTable
clear_dirty = write (λ e. record e { is_dirty = false })

unfoldable pub update_access_time : ℕ → PageTable → ℕ → PageTable
update_access_time now =
    write (λ e. record e { access_timestamp_us = now; access_count = u32_add e.access_count 1 })

-- The loop of `allocate_vpn_range`: the rounds that are left, and `i`.
unfoldable pub allocate_loop : ℕ → ℕ → ℕ → PageTable → PageTable × Bool
allocate_loop zero i vpn_start t = (t, true)
allocate_loop (suc left) i vpn_start t =
    let vpn = u64_add vpn_start i in
    elim (find vpn t.entries) [
      | some _ ↦ (t, false)
      | none ↦
          allocate_loop left (i + 1) vpn_start
            (record t { entries = insert vpn (record blank { is_valid = true }) t.entries })
    ]

unfoldable pub allocate_vpn_range : PageTable → ℕ → ℕ → PageTable × Bool
unfolding allocate_loop
allocate_vpn_range t vpn_start num_pages = allocate_loop num_pages 0 vpn_start t

-- The loop of `deallocate_vpn_range`.
unfoldable pub deallocate_loop : ℕ → ℕ → ℕ → PageTable → PageTable
deallocate_loop zero i vpn_start t = t
deallocate_loop (suc left) i vpn_start t =
    deallocate_loop left (i + 1) vpn_start
      (record t { entries = erase (u64_add vpn_start i) t.entries })

-- It returns `true` on every path, so the result is the table.
unfoldable pub deallocate_vpn_range : PageTable → ℕ → ℕ → PageTable
unfolding deallocate_loop
deallocate_vpn_range t vpn_start num_pages = deallocate_loop num_pages 0 vpn_start t

-- The loop of `get_all_entries`; the order of an `unordered_map` is unspecified.
unfoldable pub valid_entries : List (ℕ × PageTableEntry) → List (ℕ × PageTableEntry)
valid_entries [] = []
valid_entries ((vpn, e) ∷ es) =
    let rest = valid_entries es in if e.is_valid then (vpn, e) ∷ rest else rest

unfoldable pub get_all_entries : PageTable → List (ℕ × PageTableEntry)
unfolding valid_entries
get_all_entries t = valid_entries t.entries

unfoldable pub get_num_allocated_pages : PageTable → ℕ
get_num_allocated_pages t = t.num_pages

unfoldable pub clear : PageTable → PageTable
clear t = record t { entries = [] }
