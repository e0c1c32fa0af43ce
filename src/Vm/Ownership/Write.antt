-- ===== src/Vm/Ownership/Write.antt =====
-- What a write to a page changes.
use gpu_vmm.Prelude.{
  ◌-◌, ℕ, ◌+◌, ◌≤◌, ◌<◌, ◌≡◌, ◌≢◌, refl, sym, ◌∙◌, ap, true, some, List, arith, length, ◌==◌, ltb,
  Bool-cases, Option-cases, inl, inr, Returns, ◌>>=◌, ==→ne, ltb→lt, ltb→le,
}
use gpu_vmm.Common.Address.{vaddr_to_vpn}
use gpu_vmm.PageTable.{PageTableEntry, lookup_entry}
use gpu_vmm.PageAllocator.{cpu_frame}
use gpu_vmm.PageAllocator.Frames.{cpu_frame_disjoint}
use gpu_vmm.Vm.State.{World, Vm, now, tick, write_entry}
use gpu_vmm.Vm.Access.{load, store, copy_in, write_to_vaddr}
use gpu_vmm.Vm.Access.Bytes.{store_outside, load-store}
use gpu_vmm.Vm.Ownership.Table.{cpu_of, cpu_of-none, cpu_of-some}
use gpu_vmm.Vm.Ownership.Extends.{Extends, Extends-trans}
use gpu_vmm.Vm.Ownership.Valid.{IsValid, Keeps, Keeps-refl}
use gpu_vmm.Vm.Ownership.Touch.{in_pool-page, stamp-Keeps, fetch-Keeps}

-- What a write to page `vpn` does to the manager.
pub record Writes (vpn : ℕ) (s u : Vm) : Type 0 where
  pub valid : IsValid u
  pub extends : Extends s.page_table u.page_table
  pub config : u.config ≡ s.config
  pub next_vpn : u.next_vpn ≡ s.next_vpn
  pub spares :
      (v o : ℕ)
      → v ≢ vpn
      → cpu_of s.page_table v ≢ 0
      → o < s.config.page_size
      → u.memory (cpu_of s.page_table v + o) ≡ s.memory (cpu_of s.page_table v + o)

Keeps-Writes : (vpn : ℕ) {s u : Vm} → Keeps s u → Writes vpn s u
Keeps-Writes vpn k = record {
  valid = k.valid;
  extends = k.extends;
  config = k.fixed.config;
  next_vpn = k.fixed.next_vpn;
  spares = λ v o ne held lt. rw k.fixed.memory;
}

Writes-after : (vpn : ℕ) {s u r : Vm} → Keeps s u → Writes vpn u r → Writes vpn s r
Writes-after vpn {s} {u} {r} k l = record {
  valid = l.valid;
  extends = Extends-trans k.extends l.extends;
  config = l.config ∙ k.fixed.config;
  next_vpn = l.next_vpn ∙ k.fixed.next_vpn;
  spares = λ v o ne held lt.
      let same = k.extends.cpu v held in
      let there : cpu_of u.page_table v ≢ 0 = λ z. held (sym same ∙ z) in
      rw (same, k.fixed.memory) at (l.spares v o ne there (rw k.fixed.config lt));
}

-- The bytes of two pages with frames do not meet.
pages_apart :
    (s : Vm) (p v x y : ℕ)
    → IsValid s
    → v ≢ p
    → cpu_of s.page_table p ≢ 0
    → cpu_of s.page_table v ≢ 0
    → x < s.config.page_size
    → y < s.config.page_size
    → cpu_of s.page_table p + x ≢ cpu_of s.page_table v + y
pages_apart s p v x y valid ne at_p at_v h k e =
    let a = s.allocator in
    let (i, _, f) = valid.exclusive.cpu.held p at_p in
    let (j, _, g) = valid.exclusive.cpu.held v at_v in
    let met : cpu_frame a i + x ≡ cpu_frame a j + y = omega (arith, f, g, e) in
    let one : i ≡ j =
      cpu_frame_disjoint valid.exclusive.valid i j x y (rw valid.page_size h) (rw valid.page_size k)
        met in
    ne (sym (valid.exclusive.cpu.alone p v at_p (f ∙ ap (cpu_frame a) one ∙ sym g)))

store_apart :
    (memory : ℕ → ℕ) (address : ℕ) (bytes : List ℕ) (a : ℕ)
    → ((x : ℕ) → x < length bytes → address + x ≢ a)
    → store memory address bytes a ≡ memory a
store_apart memory address bytes a apart =
    store_outside memory address bytes a (elim (Bool-cases (ltb a address)) [
      | inl below ↦ inl (ltb→lt a address below)
      | inr not_below ↦ elim (Bool-cases (ltb a (address + length bytes))) [
        | inr above ↦ inr (ltb→le a (address + length bytes) above)
        | inl inside ↦
            let le : address ≤ a = ltb→le a address not_below in
            let lt : a < address + length bytes = ltb→lt a (address + length bytes) inside in
            absurd (apart (a - address) (omega arith) (omega arith))
      ]
    ])

-- If the page had a CPU frame, the frame begins with the bytes.
abbrev pub Stores : ℕ → List ℕ → Vm → Vm → Type 0
Stores vpn bytes s u =
    cpu_of s.page_table vpn ≢ 0 → load u.memory (cpu_of s.page_table vpn) (length bytes) ≡ bytes

copy_in-Writes :
    (w : World) (s : Vm) (vpn : ℕ) (bytes : List ℕ)
    → IsValid s
    → length bytes ≤ s.config.page_size
    → Returns (copy_in w s vpn bytes) λ u. Writes vpn s u × Stores vpn bytes s u
unfolding copy_in
copy_in-Writes w s vpn bytes v le = elim (Option-cases (lookup_entry s.page_table vpn)) [
  | inl e ↦ (
    s,
    rw (e, copy_in),
    (Keeps-Writes vpn (Keeps-refl s v), λ held. absurd (held (cpu_of-none s.page_table vpn e))),
  )
  | inr (x, e) ↦ elim (Bool-cases (x.cpu_address == 0)) [
    | inl null ↦ (
      s,
      rw (e, copy_in, null),
      (
        Keeps-Writes vpn (Keeps-refl s v),
        λ held. absurd (held (cpu_of-some s.page_table vpn x e ∙ ground arith)),
      ),
    )
    | inr held ↦
        let nonnull = ==→ne x.cpu_address 0 held in
        let fits = in_pool-page s vpn (length bytes) x v e nonnull le in
        let f =
          λ (y : PageTableEntry). record y { is_dirty = true; access_timestamp_us = now w s } in
        let k = stamp-Keeps f s vpn v (λ y. refl) (λ y. refl) (λ y on. on) in
        let mine = cpu_of-some s.page_table vpn x e in
        (
          write_entry f (record (tick s) { memory = store s.memory x.cpu_address bytes }) vpn,
          rw (e, copy_in, held, fits),
          (
            (record {
              valid = record {
                exclusive = k.valid.exclusive;
                tlb = k.valid.tlb;
                policy = k.valid.policy;
                page_size = k.valid.page_size;
                unused = k.valid.unused;
                allocated = k.valid.allocated;
              };
              extends = k.extends;
              config = refl;
              next_vpn = refl;
              spares = λ j o ne there lt.
                  store_apart s.memory x.cpu_address bytes (cpu_of s.page_table j + o)
                    (λ y inside q.
                      pages_apart s vpn j y o v ne (λ z. nonnull (sym mine ∙ z)) there (omega arith)
                        lt (ap (λ n. n + y) mine ∙ q));
            }),
            λ there. rw mine (load-store s.memory x.cpu_address bytes),
          ),
        )
  ]
]

-- A write to a page with a CPU frame, at an address that is not null, leaves the bytes at the beginning of the frame.
pub write_to_vaddr_lem :
    (w : World) (s : Vm) (vaddr : ℕ) (bytes : List ℕ)
    → IsValid s
    → length bytes ≤ s.config.page_size
    → Returns (write_to_vaddr w s vaddr (some bytes)) λ u.
      Writes (vaddr_to_vpn vaddr s.config.page_size) s u
      × (vaddr ≢ 0 → Stores (vaddr_to_vpn vaddr s.config.page_size) bytes s u)
unfolding write_to_vaddr
write_to_vaddr_lem w s vaddr bytes v le =
    let vpn = vaddr_to_vpn vaddr s.config.page_size in
    elim (Bool-cases (vaddr == 0)) [
      | inl null ↦ (
        s,
        rw null,
        (Keeps-Writes vpn (Keeps-refl s v), λ nonnull. absurd (nonnull (ground arith))),
      )
      | inr there ↦ elim (Option-cases (lookup_entry s.page_table vpn)) [
        | inl e ↦ (
          s,
          rw (there, e, write_to_vaddr),
          (
            Keeps-Writes vpn (Keeps-refl s v),
            λ _ held. absurd (held (cpu_of-none s.page_table vpn e)),
          ),
        )
        | inr (x, e) ↦
            let (u, run, k) = fetch-Keeps w s vpn x v in
            let (r, copied, (l, stores)) =
              copy_in-Writes w u vpn bytes k.valid (rw k.fixed.config le) in
            (
              r,
              rw (there, e, write_to_vaddr)
                  (ap (λ m. m >>= λ t. copy_in w t vpn bytes) run ∙ copied),
              (
                Writes-after vpn k l,
                λ _ held.
                    let same = k.extends.cpu vpn held in
                    rw same at (stores (λ z. held (sym same ∙ z))),
              ),
            )
      ]
    ]

-- On a valid manager a write of at most a page, at any address, ends without a fault in a valid manager; no page
-- loses its entry, its CPU address or its residency on the CPU, and the bytes of every other page that has a CPU
-- frame are as they were.
pub write_to_vaddr-Writes :
    (w : World) (s : Vm) (vaddr : ℕ) (bytes : List ℕ)
    → IsValid s
    → length bytes ≤ s.config.page_size
    → Returns
        (write_to_vaddr w s vaddr (some bytes))
        (Writes (vaddr_to_vpn vaddr s.config.page_size) s)
write_to_vaddr-Writes w s vaddr bytes v le =
    let (u, run, (k, _)) = write_to_vaddr_lem w s vaddr bytes v le in (u, run, k)
