-- ===== src/Vm/Allocate/Latest.antt =====
-- The count that `free` makes for the latest allocation: exactly its own pages.
use gpu_vmm.Prelude.{
  ℕ, ◌%◌, zero, suc, ◌+◌, ◌≤◌, ◌<◌, ◌≡◌, ◌≢◌, refl, ◌∙◌, Bool, none, List, [], ◌∷◌, ◌++◌, arith,
  if◌then◌else◌, ◌==◌, Bool-cases, Option-cases, inl, inr,
}
use gpu_vmm.Prelude.Assoc.{find, modify}
use gpu_vmm.Common.Words.{u32_mod, u64_mod, u64_add}
use gpu_vmm.PageTable.{
  PageTable, PageTableEntry, write, lookup_entry, valid_entries, get_all_entries,
  allocate_vpn_range, set_cpu_resident, set_gpu_resident, update_access_time,
}
use gpu_vmm.PageAllocator.{allocate_cpu_page, allocate_gpu_page}
use gpu_vmm.Migration.{migrate_cpu_to_gpu}
use gpu_vmm.Vm.State.{World, Vm, charge_to_gpu}
use gpu_vmm.Vm.Allocate.{
  pages_of, cpu_loop, gpu_loop, give_cpu_page, give_gpu_page, publish, allocate, count_from,
}
use gpu_vmm.Vm.Allocate.Count.{count_from-allocate_vpn_range}

-- The number of valid entries from `start` on, modulo 2 ^ 32.
abbrev pub pages_from : ℕ → PageTable → ℕ
pages_from start t = count_from start (get_all_entries t)

count_from-modify :
    (start vpn : ℕ) (f : PageTableEntry → PageTableEntry) (es : List (ℕ × PageTableEntry))
    → ((e : PageTableEntry) → (f e).is_valid ≡ e.is_valid)
    → count_from start (valid_entries (modify vpn f es)) ≡ count_from start (valid_entries es)
unfolding count_from valid_entries modify
count_from-modify start vpn f [] h = refl
count_from-modify start vpn f ((j, e) ∷ es) h =
    ground (arith, count_from-modify start vpn f es h, h e)

pages_from-write :
    (start : ℕ) (f : PageTableEntry → PageTableEntry) (t : PageTable) (vpn : ℕ)
    → ((e : PageTableEntry) → (f e).is_valid ≡ e.is_valid)
    → pages_from start (write f t vpn) ≡ pages_from start t
unfolding get_all_entries
pages_from-write start f t vpn h = count_from-modify start vpn f t.entries h

count_from-unused :
    (start : ℕ) (es : List (ℕ × PageTableEntry))
    → ((v : ℕ) → start ≤ v → find v es ≡ none)
    → count_from start (valid_entries es) ≡ 0
unfolding count_from valid_entries find
count_from-unused start [] h = refl
count_from-unused start ((j, e) ∷ es) h =
    let here = h j in
    let ih = count_from-unused start es (λ v le. ground (arith, h v le)) in ground (arith, here, ih)

give_cpu_page-pages :
    (w : World) (start : ℕ) (s : Vm) (vpn p : ℕ)
    → pages_from start (give_cpu_page w s vpn p).page_table ≡ pages_from start s.page_table
unfolding give_cpu_page set_cpu_resident update_access_time
give_cpu_page-pages w start s vpn p =
    pages_from-write start _ _ vpn (λ e. refl)
    ∙ pages_from-write start _ s.page_table vpn (λ e. refl)

cpu_loop-pages :
    (w : World) (from left i start : ℕ) (ps : List ℕ) (s : Vm)
    → pages_from from (cpu_loop w left i start ps s).0.page_table ≡ pages_from from s.page_table
unfolding cpu_loop
cpu_loop-pages w from zero i start ps s = refl
cpu_loop-pages w from (suc left) i start ps s =
    let r = allocate_cpu_page s.allocator in
    let s₁ = record s { allocator = r.0 } in
    let u = give_cpu_page w s₁ (u64_add start i) r.1 in
    elim (Bool-cases (r.1 == 0)) [
      | inl null ↦ rw (null, cpu_loop)
      | inr got ↦
          rw (got, cpu_loop)
            (cpu_loop-pages w from left (i + 1) start (ps ++ r.1 ∷ []) u
              ∙ give_cpu_page-pages w from s₁ (u64_add start i) r.1)
    ]

migrate_cpu_to_gpu-pages :
    (from start stop : ℕ) (t : PageTable) (vpn p q : ℕ)
    → pages_from from (migrate_cpu_to_gpu start stop t vpn p q).0 ≡ pages_from from t
unfolding migrate_cpu_to_gpu
migrate_cpu_to_gpu-pages from start stop t vpn p q = elim (Bool-cases (p == 0)) [
  | inl null ↦ rw null
  | inr held ↦ elim (Option-cases (lookup_entry t vpn)) [
    | inl e ↦ rw (held, e, migrate_cpu_to_gpu)
    | inr (x, e) ↦ rw (held, e, migrate_cpu_to_gpu) (pages_from-write from _ t vpn (λ y. refl))
  ]
]

give_gpu_page-pages :
    (w : World) (start : ℕ) (s : Vm) (vpn p : ℕ)
    → pages_from start (give_gpu_page w s vpn p).page_table ≡ pages_from start s.page_table
unfolding give_gpu_page charge_to_gpu set_gpu_resident
give_gpu_page-pages w start s vpn p = elim (Bool-cases ((allocate_gpu_page s.allocator).1 == 0)) [
  | inl null ↦ rw (null, give_gpu_page)
  | inr got ↦
      rw (got, give_gpu_page)
        (migrate_cpu_to_gpu-pages start _ _ _ vpn p _
          ∙ pages_from-write start _ s.page_table vpn (λ y. refl))
]

gpu_loop-pages :
    (w : World) (from : ℕ) (ps : List ℕ) (i start : ℕ) (s : Vm)
    → pages_from from (gpu_loop w ps i start s).page_table ≡ pages_from from s.page_table
unfolding gpu_loop
gpu_loop-pages w from [] i start s = refl
gpu_loop-pages w from (p ∷ ps) i start s =
    gpu_loop-pages w from ps (i + 1) start (give_gpu_page w s (u64_add start i) p)
    ∙ give_gpu_page-pages w from s (u64_add start i) p

-- An allocation that does not fail adds its pages to the count from any page up to its first.
pub allocate-pages :
    (w : World) (s : Vm) (from bytes : ℕ) (prefetch : Bool)
    → from ≤ s.next_vpn
    → s.next_vpn + pages_of bytes s.config.page_size ≤ u64_mod
    → (allocate w s bytes prefetch).1 ≢ 0
    → pages_from from (allocate w s bytes prefetch).0.page_table
      ≡ (pages_from from s.page_table + pages_of bytes s.config.page_size) % u32_mod
unfolding allocate publish
allocate-pages w s from bytes prefetch le room nonnull =
    let n = pages_of bytes s.config.page_size in
    let r = allocate_vpn_range s.page_table s.next_vpn n in
    let s₁ = record s { page_table = r.0 } in
    let c = cpu_loop w n 0 s.next_vpn [] s₁ in
    elim (Bool-cases r.1) [
      | inr refused ↦ absurd (rw (refused, allocate) at nonnull refl)
      | inl accepted ↦ elim (Option-cases c.1) [
        | inl none_left ↦ absurd (rw (accepted, none_left, allocate) at nonnull refl)
        | inr (ps, got) ↦
            let u = (if prefetch then gpu_loop w ps 0 s.next_vpn c.0 else c.0) in
            let before : pages_from from c.0.page_table ≡ pages_from from r.0 =
              cpu_loop-pages w from n 0 s.next_vpn [] s₁ in
            let after : pages_from from u.page_table ≡ pages_from from c.0.page_table =
              elim (Bool-cases prefetch) [
                | inl on ↦ rw on (gpu_loop-pages w from ps 0 s.next_vpn c.0)
                | inr off ↦ rw off
              ] in
            let grown =
              count_from-allocate_vpn_range from s.next_vpn n s.page_table le room accepted in
            rw (accepted, got, allocate) (after ∙ before ∙ grown)
      ]
    ]

-- The count from its own first page is the number of its pages.
pub allocate-latest :
    (w : World) (s : Vm) (bytes : ℕ) (prefetch : Bool)
    → ((v : ℕ) → s.next_vpn ≤ v → lookup_entry s.page_table v ≡ none)
    → s.next_vpn + pages_of bytes s.config.page_size ≤ u64_mod
    → (allocate w s bytes prefetch).1 ≢ 0
    → pages_from s.next_vpn (allocate w s bytes prefetch).0.page_table
      ≡ pages_of bytes s.config.page_size
unfolding get_all_entries lookup_entry pages_of
allocate-latest w s bytes prefetch unused room nonnull =
    let bare = count_from-unused s.next_vpn s.page_table.entries unused in
    let grown = allocate-pages w s s.next_vpn bytes prefetch (omega arith) room nonnull in
    let small : pages_of bytes s.config.page_size < u32_mod = omega arith in
    omega (arith, grown, bare)
