-- ===== src/DeviceMapped/Raii.antt =====
-- Lifetimes of `DeviceMapped` objects.
use gpu_vmm.Prelude.{
  ℕ, ◌+◌, ◌*◌, ◌%◌, ◌≤◌, ◌≡◌, ◌≢◌, refl, sym, ◌∙◌, ap, Bool, true, false, Option, none, some, arith,
  ◌==◌, Run, ok, fault, ◌>>=◌, Bool-cases, Returns, inl, inr,
}
use gpu_vmm.Common.Words.{u32_mod, u64_mod}
use gpu_vmm.PageTable.{lookup_entry}
use gpu_vmm.Vm.State.{World, Vm}
use gpu_vmm.Vm.Allocate
use gpu_vmm.Vm.Allocate.{pages_of}
use gpu_vmm.Vm.Allocate.First.{allocate_first}
use gpu_vmm.Vm.Lifecycle.{Manager, running, when_running, allocate, free}
use gpu_vmm.Vm.Ownership.Valid.{IsValid}
use gpu_vmm.Vm.Ownership.Return.{free-allocate}
use gpu_vmm.DeviceMapped.{DeviceMapped, construct, destroy, move}

-- On any manager that has given out no page number, the constructor throws, whatever the size of the object.
pub construct_first :
    (w : World) (s : Vm) (size count : ℕ) (gpu_resident : Bool)
    → s.next_vpn ≡ 0
    → (construct w (running s) size count gpu_resident).1 ≡ none
unfolding construct allocate
construct_first w s size count gpu_resident h =
    let null = allocate_first w s (count * size % u64_mod) gpu_resident h in rw null

-- Moving an object hands over the one duty to free: the old object's destructor does nothing, and the two
-- destructors together, in either order, do what the one of the original object does.
pub destroy-move :
    (manager : Manager) (d : DeviceMapped)
    → (destroy manager (move d).1 ≡ ok manager)
      × ((do m ← destroy manager (move d).1; destroy m (move d).0) ≡ destroy manager d)
      × ((do m ← destroy manager (move d).0; destroy m (move d).1) ≡ destroy manager d)
unfolding destroy move
destroy-move manager d = (refl, refl, right (destroy manager d))
  where
    right : (r : Run Manager) → (do m ← r; ok m) ≡ r
    right fault = refl
    right (ok m) = refl

module _ (w : World) (s : Vm) (size count : ℕ) (gpu_resident : Bool) where
  abbrev given_by : Vm × ℕ
  given_by = Allocate.allocate w s (count * size % u64_mod) gpu_resident

  construct_given :
      (given_by.1 == 0) ≡ false
      → construct w (running s) size count gpu_resident
        ≡ (running given_by.0, some (record { ptr = given_by.1; count = count }))
  unfolding construct allocate
  construct_given given = rw given

  construct_null :
      (given_by.1 == 0) ≡ true
      → construct w (running s) size count gpu_resident ≡ (running given_by.0, none)
  unfolding construct allocate
  construct_null null = rw null

-- On a valid running manager with 2 ^ 33 page numbers left, an object whose constructor does not throw has a pointer
-- that is not null and the count asked for, and its destructor, run next, ends without a fault in a valid
-- running manager where every page has the entry that it had before the construction.
pub destroy-construct :
    (w : World) (s : Vm) (size count : ℕ) (gpu_resident : Bool) (d : DeviceMapped)
    → IsValid s
    → s.next_vpn + u32_mod + u32_mod ≤ u64_mod
    → (construct w (running s) size count gpu_resident).1 ≡ some d
    → (d.ptr ≢ 0)
      × (d.count ≡ count)
      × Returns (destroy (construct w (running s) size count gpu_resident).0 d) λ m.
        (u : Vm) × (m ≡ running u)
        × IsValid u
        × ((v : ℕ) → lookup_entry u.page_table v ≡ lookup_entry s.page_table v)
unfolding destroy free when_running
destroy-construct w s size count gpu_resident d v room made =
    let bytes = count * size % u64_mod in
    let r = Allocate.allocate w s bytes gpu_resident in
    elim (Bool-cases (r.1 == 0)) [
      | inl null ↦
          let built = construct_null w s size count gpu_resident null in
          absurd (ground (arith, ap (λ (m : Manager × Option DeviceMapped). m.1) (sym built), made))
      | inr given ↦
          let built = construct_given w s size count gpu_resident given in
          let same : some (record { ptr = r.1; count = count }) ≡ some d = rw built at made in
          let at_ptr : d.ptr ≡ r.1 = ground (arith, same) in
          let nonnull : r.1 ≢ 0 = ground arith in
          let (u, run, (valid, entries)) = free-allocate w s bytes gpu_resident v room nonnull in
          (
            λ z. nonnull (sym at_ptr ∙ z),
            ground (arith, same),
            (
              running u,
              rw (built, at_ptr, given) (ap (λ m. m >>= λ q. ok (running q)) run),
              (u, refl, valid, entries),
            ),
          )
    ]
