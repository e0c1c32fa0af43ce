-- ===== src/Tlb/Invariant.antt =====
-- The invariant of the cache, and that no operation on a cache that has it faults or breaks it.
use native.Mathlib.Nat.{mod-lt}
use gpu_vmm.Prelude.{
  ℕ, ◌+◌, ◌/◌, ◌%◌, ◌≤◌, ◌<◌, ◌≡◌, sym, ◌∙◌, true, false, some, List, [], ◌∷◌, ◌++◌, arith, length,
  set, get_elem?, ltb, ◌==◌, ok, ◌>>=◌, Bool-cases, inl, inr, length-append, length-set,
  get_elem?-in_range, get_elem?-lt, get_elem?-set_self, get_elem?-set_ne, length-remove_at,
}
use gpu_vmm.Common.Hash.{hash_vpn}
use gpu_vmm.Tlb.Set.{
  TlbEntry, touch, present, erase_first, evict_lru, count, count-append, count-touch, count-assign,
  count-remove_at-le, count-erase_first-le, count-present, length-touch, length-assign,
  length-erase_first-le,
}
use gpu_vmm.Tlb.Evict.{evict_lru-IsOldest}
use gpu_vmm.Tlb.{Tlb, num_sets, get_set_index, locate, insert_in}

-- A set holds at most `ways` entries, and at most one for a page.
pub record IsGood (ways : ℕ) (s : List TlbEntry) : Type 0 where
  pub fits : length s ≤ ways
  pub distinct : (vpn : ℕ) → count vpn s ≤ 1

-- The sets that the configuration asks for are there, and each is good.
pub record IsValid (t : Tlb) : Type 0 where
  pub ways_pos : 0 < t.config.associativity
  pub sets_pos : 0 < t.config.tlb_size / t.config.associativity
  pub sized : length t.sets ≡ t.config.tlb_size / t.config.associativity
  pub good :
      (i : ℕ) (s : List TlbEntry) → get_elem? t.sets i ≡ some s → IsGood t.config.associativity s

pub empty-IsGood : (ways : ℕ) → IsGood ways []
unfolding count
empty-IsGood ways = record { fits = omega arith; distinct = λ vpn. omega arith }

pub touch-IsGood :
    (now vpn ways : ℕ) (s : List TlbEntry) → IsGood ways s → IsGood ways (touch now vpn s)
touch-IsGood now vpn ways s g = record {
  fits = rw (length-touch now vpn s) g.fits;
  distinct = λ j. rw (count-touch now vpn j s) (g.distinct j);
}

pub erase_first-IsGood :
    (vpn ways : ℕ) (s : List TlbEntry) → IsGood ways s → IsGood ways (erase_first vpn s)
erase_first-IsGood vpn ways s g = record {
  fits = omega (arith, length-erase_first-le vpn s, g.fits);
  distinct = λ j. omega (arith, count-erase_first-le vpn j s, g.distinct j);
}

-- Evicting makes room, and leaves at most the entries that were there.
pub evict_lru-room :
    (ways : ℕ) (s : List TlbEntry)
    → 0 < length s
    → (length (evict_lru s) + 1 ≡ length s) × ((j : ℕ) → count j (evict_lru s) ≤ count j s)
unfolding evict_lru
evict_lru-room ways [] h = elim h [ ]
evict_lru-room ways (x ∷ s) h =
    let (m, o, b, e) = evict_lru-IsOldest x s in
    rw e (
      length-remove_at m (x ∷ s) (get_elem?-lt (x ∷ s) m o b.found),
      λ j. count-remove_at-le j m (x ∷ s),
    )

count-new :
    (j vpn : ℕ) (n : TlbEntry) (s : List TlbEntry)
    → n.vpn ≡ vpn
    → count vpn s ≡ 0
    → count j s ≤ 1
    → count j (s ++ n ∷ []) ≤ 1
unfolding count
count-new j vpn n s h k l = ground (arith, count-append j s (n ∷ []))

pub insert_in-IsGood :
    (now ways vpn : ℕ) (entry : TlbEntry) (s : List TlbEntry)
    → 0 < ways
    → entry.vpn ≡ vpn
    → IsGood ways s
    → IsGood ways (insert_in now ways vpn entry s)
unfolding insert_in
insert_in-IsGood now ways vpn entry s pos h g = elim (Bool-cases (present vpn s)) [
  | inl old ↦ rw old (record {
    fits = rw (length-assign vpn (record entry { timestamp = now }) s) g.fits;
    distinct = λ j. rw (count-assign vpn j (record entry { timestamp = now }) s h) (g.distinct j);
  })
  | inr new ↦
      let n = record entry { timestamp = now; valid = true } in
      let absent = count-present vpn s new in
      elim (Bool-cases (ltb (length s) ways)) [
        | inl room ↦
            rw (new, room)
              (record {
                fits = ground (arith, length-append s (n ∷ []));
                distinct = λ j. count-new j vpn n s h absent (g.distinct j);
              })
        | inr full ↦
            let (shorter, less) = evict_lru-room ways s (ground arith) in
            rw (new, full)
              (record {
                fits = omega (arith, length-append (evict_lru s) (n ∷ []), g.fits);
                distinct = λ j.
                    count-new j vpn n (evict_lru s) h (omega (arith, less vpn))
                      (omega (arith, less j, g.distinct j));
              })
      ]
]

-- The set of a page, on a valid cache.
unfoldable pub home : Tlb → ℕ → ℕ
home t vpn = hash_vpn vpn % (t.config.tlb_size / t.config.associativity)

module _ (t : Tlb) (v : IsValid t) where
  pub home-lt : (vpn : ℕ) → home t vpn < length t.sets
  unfolding home
  home-lt vpn = rw v.sized (mod-lt _ v.sets_pos)

  pub locate-home :
      (vpn : ℕ)
      → (s : List TlbEntry) × (get_elem? t.sets (home t vpn) ≡ some s)
        × (locate t vpn ≡ ok (home t vpn, s))
        × IsGood t.config.associativity s
  unfolding locate get_set_index num_sets home
  locate-home vpn =
      let (s, e) = get_elem?-in_range t.sets (home t vpn) (home-lt vpn) in
      let a : (t.config.associativity == 0) ≡ false = ground (arith, v.ways_pos) in
      let b : (t.config.tlb_size / t.config.associativity == 0) ≡ false =
        ground (arith, v.sets_pos) in
      (s, e, rw (a, ◌>>=◌, b, ◌>>=◌, e), v.good (home t vpn) s e)

  -- Writing a good set keeps the cache valid.
  pub set-IsValid :
      (i hits misses : ℕ) (s : List TlbEntry)
      → i < length t.sets
      → IsGood t.config.associativity s
      → IsValid (record t { sets = set t.sets i s; hits = hits; misses = misses })
  set-IsValid i hits misses s h g = record {
    ways_pos = v.ways_pos;
    sets_pos = v.sets_pos;
    sized = length-set t.sets i s ∙ v.sized;
    good = λ j r e. elim (Bool-cases (i == j)) [
      | inl same ↦ ground (arith, get_elem?-set_self t.sets i s h)
      | inr other ↦ v.good j r (sym (get_elem?-set_ne t.sets i j s (ground arith)) ∙ e)
    ];
  }
