-- ===== src/Vm/Ownership/Access.antt =====
-- What a read keeps, and what it gives.
use gpu_vmm.Prelude.{
  ℕ, ◌≤◌, ◌≡◌, ◌≢◌, refl, sym, ◌∙◌, ap, Bool, false, ◌||◌, not, none, some, Option, List, arith,
  ◌==◌, Bool-cases, Option-cases, inl, inr, Returns, ◌>>=◌, ==→ne,
}
use gpu_vmm.Common.Address.{vaddr_to_vpn}
use gpu_vmm.PageTable.{PageTableEntry, lookup_entry}
use gpu_vmm.Vm.State.{World, Vm, now, tick, write_entry}
use gpu_vmm.Vm.Access.{load, copy_out, read_from_vaddr}
use gpu_vmm.Vm.Ownership.Table.{cpu_of, cpu_of-none, cpu_of-some}
use gpu_vmm.Vm.Ownership.Valid.{IsValid, Keeps, Keeps-refl, Keeps-trans}
use gpu_vmm.Vm.Ownership.Touch.{in_pool-page, stamp-Keeps, fetch-Keeps}

-- If the page has a CPU frame, the result is the bytes at its beginning.
abbrev pub Loads : ℕ → ℕ → Vm → Option (List ℕ) → Type 0
Loads vpn n s got =
    cpu_of s.page_table vpn ≢ 0 → got ≡ some (load s.memory (cpu_of s.page_table vpn) n)

copy_out-Keeps :
    (w : World) (s : Vm) (vpn n : ℕ)
    → IsValid s
    → n ≤ s.config.page_size
    → Returns (copy_out w s vpn n) λ r. Keeps s r.0 × Loads vpn n s r.1
unfolding copy_out
copy_out-Keeps w s vpn n v le = elim (Option-cases (lookup_entry s.page_table vpn)) [
  | inl e ↦ (
    (s, none),
    rw (e, copy_out),
    (Keeps-refl s v, λ held. absurd (held (cpu_of-none s.page_table vpn e))),
  )
  | inr (x, e) ↦ elim (Bool-cases (x.cpu_address == 0)) [
    | inl null ↦ (
      (s, none),
      rw (e, copy_out, null),
      (Keeps-refl s v, λ held. absurd (held (cpu_of-some s.page_table vpn x e ∙ ground arith))),
    )
    | inr held ↦
        let fits = in_pool-page s vpn n x v e (==→ne x.cpu_address 0 held) le in
        let f = λ (y : PageTableEntry). record y { access_timestamp_us = now w s } in
        (
          (write_entry f (tick s) vpn, some (load s.memory x.cpu_address n)),
          rw (e, copy_out, held, fits),
          (
            stamp-Keeps f s vpn v (λ y. refl) (λ y. refl) (λ y on. on),
            λ there. rw (cpu_of-some s.page_table vpn x e),
          ),
        )
  ]
]

-- A read from a page with a CPU frame gives the bytes at the beginning of the frame.
pub read_from_vaddr_lem :
    (w : World) (s : Vm) (vaddr n : ℕ) (buffer : Bool)
    → IsValid s
    → n ≤ s.config.page_size
    → Returns (read_from_vaddr w s vaddr buffer n) λ r.
      Keeps s r.0
      × ((vaddr == 0 || not buffer) ≡ false → Loads (vaddr_to_vpn vaddr s.config.page_size) n s r.1)
unfolding read_from_vaddr
read_from_vaddr_lem w s vaddr n buffer v le = elim (Bool-cases (vaddr == 0 || not buffer)) [
  | inl refused ↦
      ((s, none), rw refused, (Keeps-refl s v, λ fine. absurd (ground (arith, refused, fine))))
  | inr fine ↦
      let vpn = vaddr_to_vpn vaddr s.config.page_size in
      elim (Option-cases (lookup_entry s.page_table vpn)) [
        | inl e ↦ (
          (s, none),
          rw (fine, e, read_from_vaddr),
          (Keeps-refl s v, λ _ held. absurd (held (cpu_of-none s.page_table vpn e))),
        )
        | inr (x, e) ↦
            let (u, run, k) = fetch-Keeps w s vpn x v in
            let (r, copied, (l, loads)) = copy_out-Keeps w u vpn n k.valid (rw k.fixed.config le) in
            (
              r,
              rw (fine, e, read_from_vaddr) (ap (λ m. m >>= λ t. copy_out w t vpn n) run ∙ copied),
              (
                Keeps-trans k l,
                λ _ held.
                    let same = k.extends.cpu vpn held in
                    rw (same, k.fixed.memory) at (loads (λ z. held (sym same ∙ z))),
              ),
            )
      ]
]

-- On a valid manager a read of at most a page, at any address, ends without a fault in a valid manager; no page loses
-- its entry, its CPU address or its residency on the CPU, and no byte of the memory changes.
pub read_from_vaddr-Keeps :
    (w : World) (s : Vm) (vaddr n : ℕ) (buffer : Bool)
    → IsValid s
    → n ≤ s.config.page_size
    → Returns (read_from_vaddr w s vaddr buffer n) λ r. Keeps s r.0
read_from_vaddr-Keeps w s vaddr n buffer v le =
    let (r, run, (k, _)) = read_from_vaddr_lem w s vaddr n buffer v le in (r, run, k)
