-- ===== src/Tlb/Insert.antt =====
-- What `insert` does to the map, eviction included.
use gpu_vmm.Prelude.{
  ℕ, zero, suc, ◌<◌, ◌≡◌, ◌≢◌, refl, sym, ◌∙◌, true, some, List, [], ◌∷◌, ◌++◌, arith, length, set,
  get_elem?, if◌then◌else◌, ltb, ◌==◌, ◌>>=◌, Returns, Bool-cases, ◌⊎◌, inl, inr, remove_at, ==→eq,
  ==→ne,
}
use gpu_vmm.Tlb.Set.{TlbEntry, hit, present, evict_lru, count-present, hit-assign, hit-append}
use gpu_vmm.Tlb.Evict.{IsOldest, evict_lru-IsOldest}
use gpu_vmm.Tlb.Invariant.{
  IsGood, IsValid, insert_in-IsGood, evict_lru-room, home, home-lt, locate-home, set-IsValid,
}
use gpu_vmm.Tlb.{Tlb, insert_in, insert}
use gpu_vmm.Tlb.View.{cached, stamp, cached-set, cached-home}

-- Removing one entry does not change what is found for the other pages.
hit-remove_at :
    (j m : ℕ) (s : List TlbEntry) (o : TlbEntry)
    → get_elem? s m ≡ some o
    → o.vpn ≢ j
    → hit j (remove_at m s) ≡ hit j s
unfolding hit
hit-remove_at j m [] o e h = refl
hit-remove_at j zero (x ∷ s) o e h = ground arith
hit-remove_at j (suc m) (x ∷ s) o e h = ground (arith, hit-remove_at j m s o e h)

hit-append_other :
    (j : ℕ) (s : List TlbEntry) (n : TlbEntry) → n.vpn ≢ j → hit j (s ++ n ∷ []) ≡ hit j s
unfolding hit
hit-append_other j [] n h = ground arith
hit-append_other j (x ∷ s) n h = ground (arith, hit-append_other j s n h)

-- Page `j` had the oldest entry of a full set.
pub record IsVictim (ways j : ℕ) (s : List TlbEntry) : Type 0 where
  pub full : length s ≡ ways
  pub index : ℕ
  pub entry : TlbEntry
  pub oldest : IsOldest s index entry
  pub its_page : entry.vpn ≡ j

hit-insert_in_self :
    (now ways vpn : ℕ) (n : TlbEntry) (s : List TlbEntry)
    → n.vpn ≡ vpn
    → n.valid ≡ true
    → IsGood ways s
    → 0 < ways
    → hit vpn (insert_in now ways vpn n s) ≡ some (stamp now n)
unfolding insert_in hit
hit-insert_in_self now ways vpn n s h k g pos = elim (Bool-cases (present vpn s)) [
  | inl old ↦ rw old (ground (arith, hit-assign vpn vpn (stamp now n) s h k old))
  | inr new ↦
      let absent = count-present vpn s new in
      elim (Bool-cases (ltb (length s) ways)) [
        | inl room ↦
            rw (new, room)
              (hit-append vpn s (record n { timestamp = now; valid = true } ∷ []) absent
                ∙ ground arith)
        | inr full ↦
            let (shorter, less) = evict_lru-room ways s (ground arith) in
            rw (new, full)
              (hit-append vpn (evict_lru s) (record n { timestamp = now; valid = true } ∷ [])
                  (omega (arith, less vpn))
                ∙ ground arith)
      ]
]

hit-insert_in_other :
    (now ways vpn j : ℕ) (n : TlbEntry) (s : List TlbEntry)
    → n.vpn ≡ vpn
    → n.valid ≡ true
    → IsGood ways s
    → 0 < ways
    → vpn ≢ j
    → (hit j (insert_in now ways vpn n s) ≡ hit j s) ⊎ IsVictim ways j s
unfolding insert_in
hit-insert_in_other now ways vpn j n [] h k g pos other =
    inl (ground (arith, hit-append_other j [] (record n { timestamp = now; valid = true })))
hit-insert_in_other now ways vpn j n (x ∷ r) h k g pos other =
    let s = x ∷ r in
    let new_entry = record n { timestamp = now; valid = true } in
    let apart : n.vpn ≢ j = λ e. other (sym h ∙ e) in
    elim (Bool-cases (present vpn s)) [
      | inl old ↦ inl (rw old (ground (arith, hit-assign vpn j (stamp now n) s h k old)))
      | inr new ↦ elim (Bool-cases (ltb (length s) ways)) [
        | inl room ↦ inl (rw (new, room) (hit-append_other j s new_entry apart))
        | inr full ↦
            let (m, o, b, e) = evict_lru-IsOldest x r in
            elim (Bool-cases (o.vpn == j)) [
              | inl same ↦ inr (record {
                full = ground (arith, g.fits);
                index = m;
                entry = o;
                oldest = b;
                its_page = ==→eq _ _ same;
              })
              | inr kept ↦ inl (
                  rw (new, full, e)
                    (hit-append_other j (remove_at m s) new_entry apart
                      ∙ hit-remove_at j m s o b.found (==→ne _ _ kept)))
            ]
      ]
    ]

-- The cache after an insertion. Of the other pages only the one with the oldest entry of a full set, the set
-- of the new entry, may have lost its own.
pub record Inserts (now : ℕ) (t : Tlb) (vpn : ℕ) (n : TlbEntry) (u : Tlb) : Type 0 where
  pub valid : IsValid u
  pub now_cached : cached u vpn ≡ some (stamp now n)
  pub others :
      (j : ℕ)
      → (vpn ≡ j)
        ⊎ (cached u j ≡ cached t j)
        ⊎ ((s : List TlbEntry) × (home t vpn ≡ home t j)
            × (get_elem? t.sets (home t vpn) ≡ some s)
            × IsVictim t.config.associativity j s)

-- On a valid cache `insert` of a valid entry for its own page ends without a fault in a valid cache, which has
-- that entry for the page, stamped with the time; any other page keeps its entry, unless it is a page of the
-- same set, that set was full, and its entry was the first of the oldest ones there.
pub insert_lem :
    (now : ℕ) (t : Tlb) (vpn : ℕ) (n : TlbEntry)
    → IsValid t
    → n.vpn ≡ vpn
    → n.valid ≡ true
    → Returns (insert now t vpn n) (Inserts now t vpn n)
unfolding insert
insert_lem now t vpn n v h k =
    let (s, e, run, g) = locate-home t v vpn in
    let ways = t.config.associativity in
    let r = insert_in now ways vpn n s in
    let u = record t { sets = set t.sets (home t vpn) r } in
    let read : (j : ℕ) → cached u j ≡ (if home t vpn == home t j then hit j r else cached t j) =
      cached-set t v vpn t.hits t.misses r in
    (
      u,
      rw (run, ◌>>=◌),
      (record {
        valid =
            set-IsValid t v (home t vpn) t.hits t.misses r (home-lt t v vpn)
              (insert_in-IsGood now ways vpn n s v.ways_pos h g);
        now_cached = ground (arith, read vpn, hit-insert_in_self now ways vpn n s h k g v.ways_pos);
        others = λ j. elim (Bool-cases (vpn == j)) [
          | inl self ↦ inl (==→eq _ _ self)
          | inr other ↦ inr (elim (Bool-cases (home t vpn == home t j)) [
            | inr apart ↦ inl (ground (arith, read j))
            | inl beside ↦
                let same : home t vpn ≡ home t j = ==→eq _ _ beside in
                elim (hit-insert_in_other now ways vpn j n s h k g v.ways_pos (==→ne _ _ other)) [
                  | inl kept ↦ inl (ground (arith, read j, kept, cached-home t v vpn s j e same))
                  | inr victim ↦ inr (s, same, e, victim)
                ]
          ])
        ];
      }),
    )
