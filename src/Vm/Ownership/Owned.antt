-- ===== src/Vm/Ownership/Owned.antt =====
-- Ownership in the abstract: `frame i` is the address of frame `i`, `in_use` says which frames are in use,
-- and `owner` is the address that each page has, 0 for none. The frames in use and the pages that have an
-- address correspond one to one.
use gpu_vmm.Prelude.{
  ℕ, ◌≡◌, ◌≢◌, sym, ◌∙◌, Bool, true, false, arith, if◌then◌else◌, ◌==◌, Bool-cases, inl, inr,
}

pub record Owned (frame : ℕ → ℕ) (in_use : ℕ → Bool) (owner : ℕ → ℕ) : Type 0 where
  pub held : (vpn : ℕ) → owner vpn ≢ 0 → (i : ℕ) × (in_use i ≡ true) × (owner vpn ≡ frame i)
  pub alone : (v w : ℕ) → owner v ≢ 0 → owner v ≡ owner w → v ≡ w
  pub covered : (i : ℕ) → in_use i ≡ true → (vpn : ℕ) × (owner vpn ≡ frame i)

module _ {frame : ℕ → ℕ} {in_use : ℕ → Bool} {owner : ℕ → ℕ} (o : Owned frame in_use owner) where
  -- Page `vpn` gets frame `i`, which was free.
  pub Owned-take :
      (i vpn : ℕ) (in_use' : ℕ → Bool) (owner' : ℕ → ℕ)
      → ((j : ℕ) → in_use j ≡ true → frame i ≡ frame j → i ≡ j)
      → in_use i ≡ false
      → owner vpn ≡ 0
      → ((j : ℕ) → in_use j ≡ true → frame j ≢ 0)
      → ((j : ℕ) → in_use' j ≡ (if i == j then true else in_use j))
      → ((v : ℕ) → owner' v ≡ (if vpn == v then frame i else owner v))
      → Owned frame in_use' owner'
  Owned-take i vpn in_use' owner' inj free bare pos uses owns = record {
    held = held';
    alone = alone';
    covered = covered';
  }
    where
      held' : (v : ℕ) → owner' v ≢ 0 → (j : ℕ) × (in_use' j ≡ true) × (owner' v ≡ frame j)
      held' v h = elim (Bool-cases (vpn == v)) [
        | inl here ↦ (i, ground (arith, uses i), ground (arith, owns v))
        | inr there ↦
            let same : owner' v ≡ owner v = owns v ∙ rw there in
            let (j, used, e) = o.held v (λ z. h (same ∙ z)) in (j, ground (arith, uses j), same ∙ e)
      ]

      covered' : (j : ℕ) → in_use' j ≡ true → (v : ℕ) × (owner' v ≡ frame j)
      covered' j used = elim (Bool-cases (i == j)) [
        | inl same ↦ (vpn, ground (arith, owns vpn))
        | inr other ↦
            let before : in_use j ≡ true = ground (arith, uses j) in
            let (v, e) = o.covered j before in (v, ground (arith, owns v, pos j before))
      ]

      foreign : (v : ℕ) → owner v ≢ 0 → owner v ≢ frame i
      foreign v h e =
          let (j, used, f) = o.held v h in
          let same : i ≡ j = inj j used (sym e ∙ f) in ground (arith, same)

      alone' : (v w : ℕ) → owner' v ≢ 0 → owner' v ≡ owner' w → v ≡ w
      alone' v w h e = elim (Bool-cases (vpn == v)) [
        | inl a ↦ elim (Bool-cases (vpn == w)) [
          | inl b ↦ ground arith
          | inr b ↦
              let x : owner w ≡ frame i = ground (arith, owns v, owns w) in
              let y : owner w ≢ 0 = ground (arith, owns v, owns w) in absurd (foreign w y x)
        ]
        | inr a ↦ elim (Bool-cases (vpn == w)) [
          | inl b ↦
              let x : owner v ≡ frame i = ground (arith, owns v, owns w) in
              let y : owner v ≢ 0 = ground (arith, owns v) in absurd (foreign v y x)
          | inr b ↦ o.alone v w (ground (arith, owns v)) (ground (arith, owns v, owns w))
        ]
      ]

  -- Page `vpn` gives back its frame `i`.
  pub Owned-release :
      (i vpn : ℕ) (in_use' : ℕ → Bool) (owner' : ℕ → ℕ)
      → owner vpn ≢ 0
      → owner vpn ≡ frame i
      → ((j : ℕ) → in_use j ≡ true → frame i ≡ frame j → i ≡ j)
      → ((j : ℕ) → in_use' j ≡ (if i == j then false else in_use j))
      → ((v : ℕ) → owner' v ≡ (if vpn == v then 0 else owner v))
      → Owned frame in_use' owner'
  Owned-release i vpn in_use' owner' pos mine inj uses owns = record {
    held = held';
    covered = covered';
    alone = λ v w h e. o.alone v w (ground (arith, owns v)) (ground (arith, owns v, owns w));
  }
    where
      held' : (v : ℕ) → owner' v ≢ 0 → (j : ℕ) × (in_use' j ≡ true) × (owner' v ≡ frame j)
      held' v h =
          let same : owner' v ≡ owner v = ground (arith, owns v) in
          let (j, used, e) = o.held v (λ z. h (same ∙ z)) in
          let other : vpn ≢ v = λ z. ground (arith, owns v) in
          let apart : i ≢ j = λ z.
            other (o.alone vpn v pos (mine ∙ (let q : frame i ≡ frame j = cc z in q) ∙ sym e)) in
          (j, ground (arith, uses j), same ∙ e)

      covered' : (j : ℕ) → in_use' j ≡ true → (v : ℕ) × (owner' v ≡ frame j)
      covered' j used =
          let before : in_use j ≡ true = ground (arith, uses j) in
          let (v, e) = o.covered j before in (v, ground (arith, owns v, uses j, inj j before, mine))
