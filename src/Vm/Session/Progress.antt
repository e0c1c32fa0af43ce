-- ===== src/Vm/Session/Progress.antt =====
-- What commands leave of a manager, page by page.
use gpu_vmm.Prelude.{
  ℕ, ◌+◌, ◌≤◌, ◌<◌, ◌≡◌, ◌≢◌, ◌⊎◌, refl, sym, ◌∙◌, ap, Bool, false, ◌||◌, none, arith, inl, inr,
  ltb, Bool-cases, ltb→lt, ltb→le,
}
use gpu_vmm.PageTable.{lookup_entry}
use gpu_vmm.Vm.State.{Vm}
use gpu_vmm.Vm.Ownership.Table.{cpu_of, cpu_address_of}
use gpu_vmm.Vm.Ownership.Valid.{IsValid, Keeps}

-- The page has lost its entry, or it has its CPU address and the bytes there.
abbrev pub Remains : Vm → Vm → ℕ → Type 0
Remains s u v =
    (lookup_entry u.page_table v ≡ none)
    ⊎ ((cpu_of u.page_table v ≡ cpu_of s.page_table v)
        × ((o : ℕ)
            → o < s.config.page_size
            → u.memory (cpu_of s.page_table v + o) ≡ s.memory (cpu_of s.page_table v + o)))

-- At most `pages` page numbers are used up, and the pages that `written` does not hold of remain.
pub record Progress (pages : ℕ) (written : ℕ → Bool) (s u : Vm) : Type 0 where
  pub valid : IsValid u
  pub config : u.config ≡ s.config
  pub growth : s.next_vpn ≤ u.next_vpn
  pub bound : u.next_vpn ≤ s.next_vpn + pages
  pub absent :
      (v : ℕ)
      → v < s.next_vpn
      → lookup_entry s.page_table v ≡ none
      → lookup_entry u.page_table v ≡ none
  pub remains : (v : ℕ) → written v ≡ false → cpu_of s.page_table v ≢ 0 → Remains s u v

-- A page with a CPU address has a number that has been given out.
pub cpu_of-below : (s : Vm) (v : ℕ) → IsValid s → cpu_of s.page_table v ≢ 0 → v < s.next_vpn
unfolding cpu_of
cpu_of-below s v valid held = elim (Bool-cases (ltb v s.next_vpn)) [
  | inl below ↦ ltb→lt v s.next_vpn below
  | inr above ↦ absurd (held (ap cpu_address_of (valid.unused v (ltb→le v s.next_vpn above))))
]

pub Progress-refl :
    (s : Vm) (pages : ℕ) (written : ℕ → Bool) → IsValid s → Progress pages written s s
Progress-refl s pages written valid = record {
  valid = valid;
  config = refl;
  growth = omega arith;
  bound = omega arith;
  absent = λ v below e. e;
  remains = λ v unwritten held. inr (refl, λ o lt. refl);
}

pub Progress-trans :
    {s u r : Vm} (m n : ℕ) (first then_ both : ℕ → Bool)
    → ((v : ℕ) → both v ≡ (first v || then_ v))
    → IsValid s
    → Progress m first s u
    → Progress n then_ u r
    → Progress (m + n) both s r
Progress-trans {s} {u} {r} m n first then_ both union valid k l = record {
  valid = l.valid;
  config = l.config ∙ k.config;
  growth = omega (arith, k.growth, l.growth);
  bound = omega (arith, k.bound, l.bound);
  absent = λ v below e. l.absent v (omega (arith, k.growth)) (k.absent v below e);
  remains = λ v unwritten held.
      let not_first : first v ≡ false = ground (arith, union v) in
      let not_then : then_ v ≡ false = ground (arith, union v) in
      elim (k.remains v not_first held) [
        | inl gone ↦ inl (l.absent v (omega (arith, k.growth, cpu_of-below s v valid held)) gone)
        | inr (same, bytes) ↦ elim (l.remains v not_then (λ z. held (sym same ∙ z))) [
          | inl gone ↦ inl gone
          | inr (again, bytes') ↦
              inr (again ∙ same, λ o lt. rw same at (bytes' o (rw k.config lt)) ∙ bytes o lt)
        ]
      ];
}

-- An operation that keeps the manager.
pub Keeps-Progress :
    (s u : Vm) (pages : ℕ) (written : ℕ → Bool) → Keeps s u → Progress pages written s u
Keeps-Progress s u pages written k = record {
  valid = k.valid;
  config = k.fixed.config;
  growth = omega (arith, k.fixed.next_vpn);
  bound = omega (arith, k.fixed.next_vpn);
  absent = λ v below e. k.extends.absent v e;
  remains = λ v unwritten held. inr (k.extends.cpu v held, λ o lt. rw k.fixed.memory);
}
