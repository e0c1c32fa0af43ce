-- ===== src/Vm/Ownership/Extends.antt =====
-- What no operation but `free` takes away: the entry of a page, its CPU address and its residency on the CPU.
use mathlib.Core.Option
use gpu_vmm.Prelude.{
  ℕ, ◌≡◌, ◌≢◌, refl, sym, ◌∙◌, ap, true, none, some, arith, ◌==◌, Bool-cases, Option-cases, inl,
  inr, if◌then◌else◌,
}
use gpu_vmm.PageTable.{PageTable, PageTableEntry, lookup_entry, write}
use gpu_vmm.PageTable.Residency.{lookup-write}
use gpu_vmm.Vm.Ownership.Table.{cpu_of, cpu_address_of}

-- The page has an entry.
abbrev pub Present : PageTable → ℕ → Type 0
Present t v = (e : PageTableEntry) × (lookup_entry t v ≡ some e)

-- The page has an entry with the flag `resident_on_cpu`.
abbrev pub IsOnCpu : PageTable → ℕ → Type 0
IsOnCpu t v = (e : PageTableEntry) × (lookup_entry t v ≡ some e) × (e.resident_on_cpu ≡ true)

pub record Extends (t u : PageTable) : Type 0 where
  pub present : (v : ℕ) → Present t v → Present u v
  pub absent : (v : ℕ) → lookup_entry t v ≡ none → lookup_entry u v ≡ none
  pub on_cpu : (v : ℕ) → IsOnCpu t v → IsOnCpu u v
  pub cpu : (v : ℕ) → cpu_of t v ≢ 0 → cpu_of u v ≡ cpu_of t v

pub Extends-refl : (t : PageTable) → Extends t t
Extends-refl t = record {
  present = λ v p. p;
  absent = λ v a. a;
  on_cpu = λ v c. c;
  cpu = λ v h. refl;
}

pub Extends-trans : {t u r : PageTable} → Extends t u → Extends u r → Extends t r
Extends-trans k l = record {
  present = λ v p. l.present v (k.present v p);
  absent = λ v a. l.absent v (k.absent v a);
  on_cpu = λ v c. l.on_cpu v (k.on_cpu v c);
  cpu = λ v h. l.cpu v (λ z. h (sym (k.cpu v h) ∙ z)) ∙ k.cpu v h;
}

module _ (f : PageTableEntry → PageTableEntry) (t : PageTable) (vpn : ℕ) where
  pub lookup-write_at :
      (v : ℕ) (e : PageTableEntry)
      → lookup_entry t v ≡ some e
      → lookup_entry (write f t vpn) v ≡ some (if vpn == v then f e else e)
  lookup-write_at v e h = elim (Bool-cases (vpn == v)) [
    | inl here ↦ lookup-write f t vpn v ∙ rw (here, h, Option.map)
    | inr there ↦ lookup-write f t vpn v ∙ rw there h
  ]

  -- A write to an entry that keeps its flag and its CPU address, if there is one.
  pub write-Extends :
      ((e : PageTableEntry) → e.resident_on_cpu ≡ true → (f e).resident_on_cpu ≡ true)
      → ((e : PageTableEntry)
          → lookup_entry t vpn ≡ some e
          → e.cpu_address ≢ 0
          → (f e).cpu_address ≡ e.cpu_address)
      → Extends t (write f t vpn)
  unfolding cpu_of
  write-Extends flag kept = record {
    present = λ v (e, h). (_, lookup-write_at v e h);
    absent = λ v h. lookup-write f t vpn v ∙ elim (Bool-cases (vpn == v)) [
      | inl here ↦ rw (here, h, Option.map)
      | inr there ↦ rw there h
    ];
    on_cpu = λ v (e, h, on). (
      _,
      lookup-write_at v e h,
      elim (Bool-cases (vpn == v)) [ inl here ↦ rw here (flag e on) | inr there ↦ rw there on ],
    );
    cpu = λ v h. elim (Option-cases (lookup_entry t v)) [
      | inl e ↦ absurd (h (ap cpu_address_of e))
      | inr (e, q) ↦
          ap cpu_address_of (lookup-write_at v e q)
          ∙ elim (Bool-cases (vpn == v)) [
            | inl here ↦
                let at_vpn : lookup_entry t vpn ≡ some e = ground (arith, here, q) in
                rw here (kept e at_vpn (λ z. h (ap cpu_address_of q ∙ z)))
            | inr there ↦ rw there
          ]
          ∙ sym (ap cpu_address_of q)
    ];
  }

  -- A write that keeps the CPU address and the flag.
  pub write-Extends_plain :
      ((e : PageTableEntry) → e.resident_on_cpu ≡ true → (f e).resident_on_cpu ≡ true)
      → ((e : PageTableEntry) → (f e).cpu_address ≡ e.cpu_address)
      → Extends t (write f t vpn)
  write-Extends_plain flag kept = write-Extends flag (λ e h z. kept e)
