-- ===== src/Vm/Ownership/Resident.antt =====
-- The blocks that bring a page to the GPU or to the CPU, and the invariant.
use gpu_vmm.Prelude.{
  some, ==→eq, arith, ℕ, ◌≡◌, refl, sym, ◌∙◌, ap, true, ◌==◌, Bool-cases, inl, inr, Run, ok, ◌>>=◌,
  Returns,
}
use gpu_vmm.PageTable.{PageTableEntry, lookup_entry, write}
use gpu_vmm.PageAllocator.{allocate_cpu_page, allocate_gpu_page}
use gpu_vmm.Vm.State.{World, Vm, write_entry}
use gpu_vmm.Vm.Fault.{
  assign_gpu_page, ensure_gpu_page, migrate_in, mark_gpu_resident, make_gpu_resident,
  ensure_cpu_page, migrate_back, make_cpu_resident,
}
use gpu_vmm.Vm.Ownership.Table.{
  cpu_of, gpu_of, cpu_of-some, gpu_of-some, cpu_of-write_same, gpu_of-write_same, cpu_of-write,
  gpu_of-write,
}
use gpu_vmm.Vm.Ownership.Transfer.{allocate_cpu-Exclusive, allocate_gpu-Exclusive}
use gpu_vmm.Vm.Ownership.Extends.{Present, write-Extends, write-Extends_plain}
use gpu_vmm.Vm.Ownership.Frames.{allocate_cpu_page_rest, allocate_gpu_page_rest}
use gpu_vmm.Vm.Ownership.Valid.{IsValid, Keeps, Keeps-refl, Keeps-trans, IsQuiet-Keeps}
use gpu_vmm.Vm.Ownership.Evict.{evict_page_from_gpu-Evicts}
use gpu_vmm.Vm.Ownership.Quiet.{write_entry-IsQuiet, migrate_in-IsQuiet, migrate_back-IsQuiet}

-- A frame for a page that has none, or null.
assign_gpu_page-Keeps :
    (s : Vm) (vpn : ℕ)
    → IsValid s
    → Present s.page_table vpn
    → gpu_of s.page_table vpn ≡ 0
    → Keeps s (assign_gpu_page s vpn).0
unfolding assign_gpu_page
assign_gpu_page-Keeps s vpn v (x, h) bare =
    let r = allocate_gpu_page s.allocator in
    let f = λ (y : PageTableEntry). record y { gpu_address = r.1 } in
    let more = write-Extends_plain f s.page_table vpn (λ y on. on) (λ y. refl) in
    record {
      valid = record {
        exclusive =
            allocate_gpu-Exclusive v.exclusive (write f s.page_table vpn) vpn bare
              (gpu_of-write f s.page_table vpn r.1 x (λ y. refl) h)
              (cpu_of-write_same f s.page_table vpn (λ y. refl));
        tlb = v.tlb;
        policy = v.policy;
        page_size = rw ((allocate_gpu_page_rest s.allocator).1) v.page_size;
        unused = λ j below. more.absent j (v.unused j below);
        allocated = v.allocated;
      };
      extends = more;
      fixed = record { config = refl; memory = refl; next_vpn = refl; allocations = refl };
    }

assign_gpu_page-null :
    (s : Vm) (vpn : ℕ)
    → Present s.page_table vpn
    → (assign_gpu_page s vpn).1 ≡ 0
    → gpu_of (assign_gpu_page s vpn).0.page_table vpn ≡ 0
unfolding assign_gpu_page
assign_gpu_page-null s vpn (x, h) null =
    let r = allocate_gpu_page s.allocator in
    let f = λ (y : PageTableEntry). record y { gpu_address = r.1 } in
    ground (arith, gpu_of-write f s.page_table vpn r.1 x (λ y. refl) h vpn, null)

ensure_gpu_page-Keeps :
    (w : World) (s : Vm) (vpn : ℕ) (e : PageTableEntry)
    → IsValid s
    → lookup_entry s.page_table vpn ≡ some e
    → Returns (ensure_gpu_page w s vpn e) (Keeps s)
unfolding ensure_gpu_page
ensure_gpu_page-Keeps w s vpn e v p = elim (Bool-cases (e.gpu_address == 0)) [
  | inr there ↦ (s, rw there, Keeps-refl s v)
  | inl missing ↦
      let bare : gpu_of s.page_table vpn ≡ 0 =
        gpu_of-some s.page_table vpn e p ∙ ==→eq e.gpu_address 0 missing in
      let r = assign_gpu_page s vpn in
      let k = assign_gpu_page-Keeps s vpn v (e, p) bare in
      elim (Bool-cases (r.1 == 0)) [
        | inr got ↦ (r.0, rw (missing, got), k)
        | inl full ↦
            let null = assign_gpu_page-null s vpn (e, p) (==→eq r.1 0 full) in
            let (u, run, l) = evict_page_from_gpu-Evicts w r.0 k.valid in
            let q = l.keeps.extends.present vpn (k.extends.present vpn (e, p)) in
            (
              (assign_gpu_page u vpn).0,
              rw (missing, full, run),
              Keeps-trans k (
                  Keeps-trans l.keeps
                    (assign_gpu_page-Keeps u vpn l.keeps.valid q (l.gpu vpn null))),
            )
      ]
]

mark_gpu_resident-Keeps : (s : Vm) (vpn : ℕ) → IsValid s → Keeps s (mark_gpu_resident s vpn)
unfolding mark_gpu_resident
mark_gpu_resident-Keeps s vpn v =
    let f = λ (y : PageTableEntry). record y { resident_on_gpu = true } in
    let k =
      IsQuiet-Keeps v (write_entry f s vpn)
        (write_entry-IsQuiet f s vpn (λ e. refl) (λ e. refl) (λ e on. on)) in
    record {
      valid = record {
        exclusive = k.valid.exclusive;
        tlb = v.tlb;
        policy = v.policy;
        page_size = v.page_size;
        unused = k.valid.unused;
        allocated = k.valid.allocated;
      };
      extends = k.extends;
      fixed = record { config = refl; memory = refl; next_vpn = refl; allocations = refl };
    }

pub make_gpu_resident-Keeps :
    (w : World) (s : Vm) (vpn : ℕ) (e : PageTableEntry)
    → IsValid s
    → lookup_entry s.page_table vpn ≡ some e
    → Returns (make_gpu_resident w s vpn e) (Keeps s)
unfolding make_gpu_resident
make_gpu_resident-Keeps w s vpn e v p = elim (Bool-cases e.resident_on_gpu) [
  | inl there ↦ (s, rw there, Keeps-refl s v)
  | inr away ↦
      let (u, run, k) = ensure_gpu_page-Keeps w s vpn e v p in
      let l = IsQuiet-Keeps k.valid (migrate_in w u vpn) (migrate_in-IsQuiet w u vpn) in
      let rest : Vm → Run Vm = λ r. ok (mark_gpu_resident (migrate_in w r vpn) vpn) in
      let step : make_gpu_resident w s vpn e ≡ ensure_gpu_page w s vpn e >>= rest = rw away in
      (
        mark_gpu_resident (migrate_in w u vpn) vpn,
        step ∙ ap (λ m. m >>= rest) run,
        Keeps-trans k (Keeps-trans l (mark_gpu_resident-Keeps (migrate_in w u vpn) vpn l.valid)),
      )
]

ensure_cpu_page-Keeps :
    (s : Vm) (vpn : ℕ) (e : PageTableEntry)
    → IsValid s
    → lookup_entry s.page_table vpn ≡ some e
    → Keeps s (ensure_cpu_page s vpn e)
unfolding ensure_cpu_page
ensure_cpu_page-Keeps s vpn e v h = elim (Bool-cases (e.cpu_address == 0)) [
  | inr there ↦ rw there (Keeps-refl s v)
  | inl missing ↦
      let r = allocate_cpu_page s.allocator in
      let f = λ (y : PageTableEntry). record y { cpu_address = r.1 } in
      let null = ==→eq e.cpu_address 0 missing in
      let bare : cpu_of s.page_table vpn ≡ 0 = cpu_of-some s.page_table vpn e h ∙ null in
      let more =
        write-Extends f s.page_table vpn (λ y on. on)
          (λ y q held. absurd (held (sym (cpu_of-some s.page_table vpn y q) ∙ bare))) in
      rw missing (record {
        valid = record {
          exclusive =
              allocate_cpu-Exclusive v.exclusive (write f s.page_table vpn) vpn bare
                (cpu_of-write f s.page_table vpn r.1 e (λ y. refl) h)
                (gpu_of-write_same f s.page_table vpn (λ y. refl));
          tlb = v.tlb;
          policy = v.policy;
          page_size = rw ((allocate_cpu_page_rest s.allocator).1) v.page_size;
          unused = λ j below. more.absent j (v.unused j below);
          allocated = v.allocated;
        };
        extends = more;
        fixed = record { config = refl; memory = refl; next_vpn = refl; allocations = refl };
      })
]

pub make_cpu_resident-Keeps :
    (w : World) (s : Vm) (vpn : ℕ) (e : PageTableEntry)
    → IsValid s
    → lookup_entry s.page_table vpn ≡ some e
    → Keeps s (make_cpu_resident w s vpn e)
unfolding make_cpu_resident
make_cpu_resident-Keeps w s vpn e v p = elim (Bool-cases e.resident_on_cpu) [
  | inl there ↦ rw there (Keeps-refl s v)
  | inr away ↦
      let k = ensure_cpu_page-Keeps s vpn e v p in
      let u = ensure_cpu_page s vpn e in
      let l = IsQuiet-Keeps k.valid (migrate_back w u vpn) (migrate_back-IsQuiet w u vpn) in
      let f = λ (y : PageTableEntry). record y { resident_on_cpu = true } in
      let m =
        IsQuiet-Keeps l.valid (write_entry f (migrate_back w u vpn) vpn) (
          write_entry-IsQuiet f (migrate_back w u vpn) vpn (λ y. refl) (λ y. refl)
            (λ y on. refl)) in
      rw away (Keeps-trans k (Keeps-trans l m))
]
