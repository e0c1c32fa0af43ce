-- ===== src/Vm/Access/Bytes.antt =====
-- Reading back what was written.
use gpu_vmm.Prelude.{
  ℕ, zero, suc, ◌+◌, ◌≤◌, ◌<◌, ◌≡◌, ◌≢◌, refl, ◌∙◌, ap, true, false, ◌&&◌, leb, ltb, some, List, [],
  ◌∷◌, arith, if◌then◌else◌, ◌==◌, length, ok, ◌>>=◌, Returns, ◌⊎◌, ==_refl,
}
use mathlib.Core.Path.{ap₂}
use mathlib.Core.Option
use gpu_vmm.Common.Address.{vaddr_to_vpn}
use gpu_vmm.PageTable.{PageTableEntry, lookup_entry}
use gpu_vmm.PageTable.Residency.{lookup-write}
use gpu_vmm.Vm.State.{World, Vm, now, tick, write_entry}
use gpu_vmm.Vm.Access.{
  in_pool, load, store, fetch, copy_in, copy_out, read_from_vaddr, write_to_vaddr,
}

-- A store does not change the bytes below it or from its end on.
pub store_outside :
    (memory : ℕ → ℕ) (address : ℕ) (bytes : List ℕ) (a : ℕ)
    → (a < address) ⊎ (address + length bytes ≤ a)
    → store memory address bytes a ≡ memory a
unfolding store
store_outside memory address [] a h = refl
store_outside memory address (b ∷ bs) a h = ground (arith, store_outside memory (address + 1) bs a)

load_congr :
    (m k : ℕ → ℕ) (address n : ℕ)
    → ((a : ℕ) → address ≤ a → m a ≡ k a)
    → load m address n ≡ load k address n
unfolding load
load_congr m k address zero h = refl
load_congr m k address (suc n) h =
    ap₂ (◌∷◌) (h address (omega arith)) (load_congr m k (address + 1) n (λ a le. h a (omega arith)))

-- Loading from where bytes were stored gives the bytes.
pub load-store :
    (memory : ℕ → ℕ) (address : ℕ) (bytes : List ℕ)
    → load (store memory address bytes) address (length bytes) ≡ bytes
unfolding load store
load-store memory address [] = refl
load-store memory address (b ∷ bs) = ap₂ (◌∷◌) (rw (==_refl address)) (
    load_congr (store memory address (b ∷ bs)) (store memory (address + 1) bs) (address + 1)
      (length bs) (λ a le. ground arith)
    ∙ load-store memory (address + 1) bs)

-- The manager after a write of the bytes to the frame of an entry.
abbrev written : World → Vm → ℕ → List ℕ → PageTableEntry → Vm
written w s vpn bytes e =
    write_entry (λ x. record x { is_dirty = true; access_timestamp_us = now w s })
      (record (tick s) { memory = store s.memory e.cpu_address bytes }) vpn

module _ (w : World) (s : Vm) (vpn : ℕ) (e : PageTableEntry)
    (found : lookup_entry s.page_table vpn ≡ some e) (held : e.cpu_address ≢ 0) where
  copy_in_lem :
      (bytes : List ℕ)
      → in_pool s.allocator e.cpu_address (length bytes) ≡ true
      → copy_in w s vpn bytes ≡ ok (written w s vpn bytes e)
  unfolding copy_in
  copy_in_lem bytes fits =
      let b : (e.cpu_address == 0) ≡ false = ground arith in rw (found, copy_in, b, fits)

  copy_out_lem :
      (n : ℕ)
      → in_pool s.allocator e.cpu_address n ≡ true
      → copy_out w s vpn n
        ≡ ok (
          write_entry (λ x. record x { access_timestamp_us = now w s }) (tick s) vpn,
          some (load s.memory e.cpu_address n),
        )
  unfolding copy_out
  copy_out_lem n fits =
      let b : (e.cpu_address == 0) ≡ false = ground arith in rw (found, copy_out, b, fits)

-- A write at a non-null address whose page is resident on the CPU with a non-null frame address, of bytes
-- that fit in the pool from that address on, ends without a fault, and a read of as many bytes at the same
-- address then ends without a fault and gives exactly those bytes; the memory outside the bytes written is
-- as it was.
pub read-write :
    (w : World) (s : Vm) (vaddr : ℕ) (bytes : List ℕ) (e : PageTableEntry)
    → vaddr ≢ 0
    → lookup_entry s.page_table (vaddr_to_vpn vaddr s.config.page_size) ≡ some e
    → e.resident_on_cpu ≡ true
    → e.cpu_address ≢ 0
    → in_pool s.allocator e.cpu_address (length bytes) ≡ true
    → Returns (write_to_vaddr w s vaddr (some bytes)) λ u.
      (Returns (read_from_vaddr w u vaddr true (length bytes)) λ r. r.1 ≡ some bytes)
      × ((a : ℕ)
          → (if leb e.cpu_address a && ltb a (e.cpu_address + length bytes)
              then s.memory a
              else u.memory a)
            ≡ s.memory a)
unfolding write_to_vaddr read_from_vaddr fetch
read-write w s vaddr bytes e nonnull found here held fits =
    let vpn = vaddr_to_vpn vaddr s.config.page_size in
    let f = λ (x : PageTableEntry). record x { is_dirty = true; access_timestamp_us = now w s } in
    let u = written w s vpn bytes e in
    let again : lookup_entry u.page_table vpn ≡ some (f e) =
      lookup-write f s.page_table vpn vpn ∙ rw (==_refl vpn, found, Option.map) in
    let a : (vaddr == 0) ≡ false = ground arith in
    (
      u,
      rw (a, found, here, ◌>>=◌) (copy_in_lem w s vpn e found held bytes fits),
      (
        (
          (
            write_entry (λ x. record x { access_timestamp_us = now w u }) (tick u) vpn,
            some (load u.memory e.cpu_address (length bytes)),
          ),
          rw (a, again, here, ◌>>=◌) (copy_out_lem w u vpn (f e) again held (length bytes) fits),
          ap some (load-store s.memory e.cpu_address bytes),
        ),
        λ a. ground (arith, store_outside s.memory e.cpu_address bytes a),
      ),
    )
