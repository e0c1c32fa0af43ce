-- ===== src/Tlb/Set.antt =====
-- One set of the cache: the loops of src/vm/TLB.cpp over it.
use gpu_vmm.Prelude.{
  ℕ, zero, suc, ◌+◌, ◌≤◌, ◌≡◌, refl, Bool, true, false, ◌&&◌, Option, none, some, List, [], ◌∷◌,
  ◌++◌, if◌then◌else◌, ltb, ◌==◌, length, remove_at, arith,
}

pub record TlbEntry : Type 0 where
  pub vpn : ℕ
  pub cpu_address : ℕ
  pub gpu_address : ℕ
  pub timestamp : ℕ
  pub valid : Bool

-- The entry at which the loop of `lookup` stops.
unfoldable pub hit : ℕ → List TlbEntry → Option TlbEntry
hit vpn [] = none
hit vpn (e ∷ s) = if e.valid && e.vpn == vpn then some e else hit vpn s

-- Its time stamp is renewed.
unfoldable pub touch : ℕ → ℕ → List TlbEntry → List TlbEntry
touch now vpn [] = []
touch now vpn (e ∷ s) =
    if e.valid && e.vpn == vpn then record e { timestamp = now } ∷ s else e ∷ touch now vpn s

-- Whether the loop of `insert` finds an entry, valid or not.
unfoldable pub present : ℕ → List TlbEntry → Bool
present vpn [] = false
present vpn (e ∷ s) = if e.vpn == vpn then true else present vpn s

-- It overwrites that entry.
unfoldable pub assign : ℕ → TlbEntry → List TlbEntry → List TlbEntry
assign vpn entry [] = []
assign vpn entry (e ∷ s) = if e.vpn == vpn then entry ∷ s else e ∷ assign vpn entry s

-- The loop of `invalidate`.
unfoldable pub erase_first : ℕ → List TlbEntry → List TlbEntry
erase_first vpn [] = []
erase_first vpn (e ∷ s) = if e.vpn == vpn then s else e ∷ erase_first vpn s

-- The loop of `evict_lru`: the entries from `i` on, `i`, `min_idx`, and the time stamp at `min_idx`.
unfoldable pub min_loop : List TlbEntry → ℕ → ℕ → ℕ → ℕ
min_loop [] i min_idx oldest = min_idx
min_loop (e ∷ s) i min_idx oldest =
    min_loop s (i + 1) (if ltb e.timestamp oldest then i else min_idx)
      (if ltb e.timestamp oldest then e.timestamp else oldest)

unfoldable pub evict_lru : List TlbEntry → List TlbEntry
unfolding min_loop
evict_lru [] = []
evict_lru (e ∷ s) = remove_at (min_loop s 1 0 e.timestamp) (e ∷ s)

-- The number of entries, valid or not, for a page.
unfoldable pub count : ℕ → List TlbEntry → ℕ
count vpn [] = 0
count vpn (e ∷ s) = (if e.vpn == vpn then 1 else 0) + count vpn s

pub count-append : (vpn : ℕ) (s r : List TlbEntry) → count vpn (s ++ r) ≡ count vpn s + count vpn r
unfolding count
count-append vpn [] r = omega arith
count-append vpn (e ∷ s) r = omega (arith, count-append vpn s r)

pub count-touch : (now vpn j : ℕ) (s : List TlbEntry) → count j (touch now vpn s) ≡ count j s
unfolding count touch
count-touch now vpn j [] = refl
count-touch now vpn j (e ∷ s) = ground (arith, count-touch now vpn j s)

pub count-assign :
    (vpn j : ℕ) (entry : TlbEntry) (s : List TlbEntry)
    → entry.vpn ≡ vpn
    → count j (assign vpn entry s) ≡ count j s
unfolding count assign
count-assign vpn j entry [] h = refl
count-assign vpn j entry (e ∷ s) h = ground (arith, count-assign vpn j entry s)

pub count-remove_at-le : (j i : ℕ) (s : List TlbEntry) → count j (remove_at i s) ≤ count j s
unfolding count
count-remove_at-le j i [] = omega arith
count-remove_at-le j zero (e ∷ s) = omega arith
count-remove_at-le j (suc i) (e ∷ s) = omega (arith, count-remove_at-le j i s)

pub count-erase_first-le : (vpn j : ℕ) (s : List TlbEntry) → count j (erase_first vpn s) ≤ count j s
unfolding count erase_first
count-erase_first-le vpn j [] = omega arith
count-erase_first-le vpn j (e ∷ s) = ground (arith, count-erase_first-le vpn j s)

pub count-present : (vpn : ℕ) (s : List TlbEntry) → present vpn s ≡ false → count vpn s ≡ 0
unfolding count present
count-present vpn [] h = refl
count-present vpn (e ∷ s) h = ground (arith, count-present vpn s)

pub hit-count : (vpn : ℕ) (s : List TlbEntry) → count vpn s ≡ 0 → hit vpn s ≡ none
unfolding count hit
hit-count vpn [] h = refl
hit-count vpn (e ∷ s) h = ground (arith, hit-count vpn s)

pub length-touch : (now vpn : ℕ) (s : List TlbEntry) → length (touch now vpn s) ≡ length s
unfolding touch
length-touch now vpn [] = refl
length-touch now vpn (e ∷ s) = ground (arith, length-touch now vpn s)

pub length-assign :
    (vpn : ℕ) (entry : TlbEntry) (s : List TlbEntry) → length (assign vpn entry s) ≡ length s
unfolding assign
length-assign vpn entry [] = refl
length-assign vpn entry (e ∷ s) = ground (arith, length-assign vpn entry s)

pub length-erase_first-le : (vpn : ℕ) (s : List TlbEntry) → length (erase_first vpn s) ≤ length s
unfolding erase_first
length-erase_first-le vpn [] = omega arith
length-erase_first-le vpn (e ∷ s) = ground (arith, length-erase_first-le vpn s)

pub hit-touch :
    (now vpn j : ℕ) (s : List TlbEntry) (e : TlbEntry)
    → hit vpn s ≡ some e
    → hit j (touch now vpn s) ≡ (if vpn == j then some (record e { timestamp = now }) else hit j s)
unfolding hit touch
hit-touch now vpn j [] x h = absurd (ground (arith, h))
hit-touch now vpn j (e ∷ s) x h = ground (arith, hit-touch now vpn j s x)

pub hit-assign :
    (vpn j : ℕ) (entry : TlbEntry) (s : List TlbEntry)
    → entry.vpn ≡ vpn
    → entry.valid ≡ true
    → present vpn s ≡ true
    → hit j (assign vpn entry s) ≡ (if vpn == j then some entry else hit j s)
unfolding hit assign present
hit-assign vpn j entry [] h k p = absurd (ground (arith, p))
hit-assign vpn j entry (e ∷ s) h k p = ground (arith, hit-assign vpn j entry s)

pub hit-erase_first :
    (vpn j : ℕ) (s : List TlbEntry)
    → count vpn s ≤ 1
    → hit j (erase_first vpn s) ≡ (if vpn == j then none else hit j s)
unfolding hit erase_first count
hit-erase_first vpn j [] h = ground arith
hit-erase_first vpn j (e ∷ s) h = ground (arith, hit-erase_first vpn j s, hit-count vpn s)

-- A look at the entries of the first part comes first.
pub hit-append : (vpn : ℕ) (s r : List TlbEntry) → count vpn s ≡ 0 → hit vpn (s ++ r) ≡ hit vpn r
unfolding hit count
hit-append vpn [] r h = refl
hit-append vpn (e ∷ s) r h = ground (arith, hit-append vpn s r)
