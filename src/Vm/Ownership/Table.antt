-- ===== src/Vm/Ownership/Table.antt =====
-- The addresses that the page table gives out, and how the writes to it change them.
use mathlib.Core.Option
use gpu_vmm.Prelude.{
  ℕ, ◌≡◌, Option, none, some, arith, if◌then◌else◌, ◌==◌, Bool-cases, Option-cases, inl, inr, ap,
  ◌∙◌,
}
use gpu_vmm.PageTable.{PageTable, PageTableEntry, lookup_entry, write}
use gpu_vmm.PageTable.Residency.{lookup-write}

abbrev pub cpu_address_of : Option PageTableEntry → ℕ
cpu_address_of none = 0
cpu_address_of (some e) = e.cpu_address

abbrev pub gpu_address_of : Option PageTableEntry → ℕ
gpu_address_of none = 0
gpu_address_of (some e) = e.gpu_address

-- The address of a page, 0 where it has no entry.
unfoldable pub cpu_of : PageTable → ℕ → ℕ
cpu_of t vpn = cpu_address_of (lookup_entry t vpn)

unfoldable pub gpu_of : PageTable → ℕ → ℕ
gpu_of t vpn = gpu_address_of (lookup_entry t vpn)

pub cpu_of-none : (t : PageTable) (vpn : ℕ) → lookup_entry t vpn ≡ none → cpu_of t vpn ≡ 0
unfolding cpu_of
cpu_of-none t vpn h = ap cpu_address_of h

pub gpu_of-none : (t : PageTable) (vpn : ℕ) → lookup_entry t vpn ≡ none → gpu_of t vpn ≡ 0
unfolding gpu_of
gpu_of-none t vpn h = ap gpu_address_of h

pub cpu_of-some :
    (t : PageTable) (vpn : ℕ) (e : PageTableEntry)
    → lookup_entry t vpn ≡ some e
    → cpu_of t vpn ≡ e.cpu_address
unfolding cpu_of
cpu_of-some t vpn e h = ap cpu_address_of h

pub gpu_of-some :
    (t : PageTable) (vpn : ℕ) (e : PageTableEntry)
    → lookup_entry t vpn ≡ some e
    → gpu_of t vpn ≡ e.gpu_address
unfolding gpu_of
gpu_of-some t vpn e h = ap gpu_address_of h

module _ (f : PageTableEntry → PageTableEntry) (t : PageTable) (vpn : ℕ) where
  -- A write that leaves an address alone.
  pub cpu_of-write_same :
      ((e : PageTableEntry) → (f e).cpu_address ≡ e.cpu_address)
      → (v : ℕ) → cpu_of (write f t vpn) v ≡ cpu_of t v
  unfolding cpu_of
  cpu_of-write_same h v =
      ap cpu_address_of (lookup-write f t vpn v) ∙ elim (Bool-cases (vpn == v)) [
        | inr there ↦ rw there
        | inl here ↦ rw here (elim (Option-cases (lookup_entry t v)) [
          | inl e ↦ rw (e, Option.map)
          | inr (e, q) ↦ rw (q, Option.map) (h e)
        ])
      ]

  pub gpu_of-write_same :
      ((e : PageTableEntry) → (f e).gpu_address ≡ e.gpu_address)
      → (v : ℕ) → gpu_of (write f t vpn) v ≡ gpu_of t v
  unfolding gpu_of
  gpu_of-write_same h v =
      ap gpu_address_of (lookup-write f t vpn v) ∙ elim (Bool-cases (vpn == v)) [
        | inr there ↦ rw there
        | inl here ↦ rw here (elim (Option-cases (lookup_entry t v)) [
          | inl e ↦ rw (e, Option.map)
          | inr (e, q) ↦ rw (q, Option.map) (h e)
        ])
      ]

  -- A write that sets the address of a page that has an entry.
  pub cpu_of-write :
      (address : ℕ) (x : PageTableEntry)
      → ((e : PageTableEntry) → (f e).cpu_address ≡ address)
      → lookup_entry t vpn ≡ some x
      → (v : ℕ) → cpu_of (write f t vpn) v ≡ (if vpn == v then address else cpu_of t v)
  unfolding cpu_of
  cpu_of-write address x h q v =
      ap cpu_address_of (lookup-write f t vpn v) ∙ elim (Bool-cases (vpn == v)) [
        | inr there ↦ rw there
        | inl here ↦
            let found : lookup_entry t v ≡ some x = ground (arith, here, q) in
            rw (here, found, Option.map) (h x)
      ]

  pub gpu_of-write :
      (address : ℕ) (x : PageTableEntry)
      → ((e : PageTableEntry) → (f e).gpu_address ≡ address)
      → lookup_entry t vpn ≡ some x
      → (v : ℕ) → gpu_of (write f t vpn) v ≡ (if vpn == v then address else gpu_of t v)
  unfolding gpu_of
  gpu_of-write address x h q v =
      ap gpu_address_of (lookup-write f t vpn v) ∙ elim (Bool-cases (vpn == v)) [
        | inr there ↦ rw there
        | inl here ↦
            let found : lookup_entry t v ≡ some x = ground (arith, here, q) in
            rw (here, found, Option.map) (h x)
      ]
