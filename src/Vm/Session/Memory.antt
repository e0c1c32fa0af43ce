-- ===== src/Vm/Session/Memory.antt =====
-- Reads after writes, with other calls in between.
use mathlib.Core.Path.{ap₂}
use gpu_vmm.Prelude.{
  ℕ, zero, suc, ◌+◌, ◌*◌, ◌≤◌, ◌<◌, ◌≡◌, ◌≢◌, ◌⊎◌, refl, sym, ◌∙◌, ap, true, false, none, some,
  List, ◌∷◌, arith, inl, inr, length, Returns, ◌>>=◌,
}
use gpu_vmm.Common.Words.{u32_mod, u64_mod}
use gpu_vmm.Common.Address.{vaddr_to_vpn}
use gpu_vmm.PageTable.{lookup_entry}
use gpu_vmm.Vm.State.{World, Vm}
use gpu_vmm.Vm.Access.{load, read_from_vaddr, write_to_vaddr}
use gpu_vmm.Vm.Ownership.Table.{cpu_of}
use gpu_vmm.Vm.Ownership.Valid.{IsValid}
use gpu_vmm.Vm.Ownership.Access.{read_from_vaddr_lem}
use gpu_vmm.Vm.Ownership.Write.{write_to_vaddr_lem}
use gpu_vmm.Vm.Session.{Command, run, all_fit, any_writes_to}
use gpu_vmm.Vm.Session.Valid.{run-Progress}

load_same :
    (m k : ℕ → ℕ) (address n size : ℕ)
    → n ≤ size
    → ((o : ℕ) → o < size → m (address + o) ≡ k (address + o))
    → load m address n ≡ load k address n
unfolding load
load_same m k address zero size le h = refl
load_same m k address (suc n) zero le h = absurd (omega arith)
load_same m k address (suc n) (suc size) le h =
    let zero_on : address + 0 ≡ address = omega arith in
    ap₂ (◌∷◌) (rw zero_on at (h 0 (omega arith))) (
      load_same m k (address + 1) n size (omega arith) (λ o lt.
        let e : address + 1 + o ≡ address + suc o = omega arith in rw e (h (suc o) (omega arith))))

-- On a valid manager, let bytes, at most a page of them, be written at an address that is not null, to a page that
-- has a CPU frame, and let any list of public calls follow that does not write to that page, with reads and
-- writes of at most a page and page numbers enough. None of this faults; and then either the page has no entry,
-- or a read of as many bytes at that address ends without a fault and gives the bytes written.
pub read-run-write :
    (w : World) (s : Vm) (vaddr : ℕ) (bytes : List ℕ) (cs : List Command)
    → IsValid s
    → vaddr ≢ 0
    → cpu_of s.page_table (vaddr_to_vpn vaddr s.config.page_size) ≢ 0
    → length bytes ≤ s.config.page_size
    → s.next_vpn + length cs * u32_mod ≤ u64_mod
    → all_fit s.config.page_size cs ≡ true
    → any_writes_to s.config.page_size (vaddr_to_vpn vaddr s.config.page_size) cs ≡ false
    → Returns
        (do u ← write_to_vaddr w s vaddr (some bytes); run w cs u)
        λ r.
          (lookup_entry r.page_table (vaddr_to_vpn vaddr s.config.page_size) ≡ none)
          ⊎ (Returns (read_from_vaddr w r vaddr true (length bytes)) λ q. q.1 ≡ some bytes)
read-run-write w s vaddr bytes cs v nonnull held le room fit quiet =
    let page = s.config.page_size in
    let vpn = vaddr_to_vpn vaddr page in
    let address = cpu_of s.page_table vpn in
    let (u, wrote, (k, stores)) = write_to_vaddr_lem w s vaddr bytes v le in
    let same = k.extends.cpu vpn held in
    let (r, ran, l) = run-Progress w cs u k.valid (rw k.next_vpn room) (rw k.config fit) in
    (
      r,
      ap (λ m. m >>= run w cs) wrote ∙ ran,
      elim (l.remains vpn (rw k.config quiet) (λ z. held (sym same ∙ z))) [
        | inl gone ↦ inl gone
        | inr (again, left) ↦
            let (q, read, (_, loads)) =
              read_from_vaddr_lem w r vaddr (length bytes) true l.valid
                (rw (l.config, k.config) le) in
            let at_address : cpu_of r.page_table vpn ≡ address = again ∙ same in
            let got = rw (l.config, k.config, at_address) at (loads (ground arith)) in
            let kept =
              load_same r.memory u.memory address (length bytes) page le
                (rw (same, k.config) at left) in
            inr (q, read, got held ∙ ap some (kept ∙ stores nonnull held))
      ],
    )

-- The offset of an address in its page is not used. On a valid manager a write of at most a page at an address that is
-- not null, whose page has a CPU frame, and then a read of as many bytes at any address of the same page that is not
-- null, end without a fault, and the read gives the bytes written, however far apart the addresses are.
pub read-write_offset :
    (w : World) (s : Vm) (vaddr other : ℕ) (bytes : List ℕ)
    → IsValid s
    → vaddr ≢ 0
    → other ≢ 0
    → vaddr_to_vpn other s.config.page_size ≡ vaddr_to_vpn vaddr s.config.page_size
    → cpu_of s.page_table (vaddr_to_vpn vaddr s.config.page_size) ≢ 0
    → length bytes ≤ s.config.page_size
    → Returns
        (do
          u ← write_to_vaddr w s vaddr (some bytes)
          read_from_vaddr w u other true (length bytes))
        λ q. q.1 ≡ some bytes
read-write_offset w s vaddr other bytes v nonnull other_nonnull one_page held le =
    let n = length bytes in
    let (u, wrote, (k, stores)) = write_to_vaddr_lem w s vaddr bytes v le in
    let same = k.extends.cpu (vaddr_to_vpn vaddr s.config.page_size) held in
    let (q, read, (_, loads)) = read_from_vaddr_lem w u other n true k.valid (rw k.config le) in
    let got = rw (k.config, one_page, same) at (loads (ground arith)) in
    (
      q,
      ap (λ m. m >>= λ t. read_from_vaddr w t other true n) wrote ∙ read,
      got held ∙ ap some (stores nonnull held),
    )
