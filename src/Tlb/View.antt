-- ===== src/Tlb/View.antt =====
-- The cache as a partial map from pages to entries, and what each operation does to that map.
use mathlib.Core.List.{map}
use mathlib.Core.Option
use gpu_vmm.Prelude.{
  ℕ, zero, suc, false, ◌/◌, ◌<◌, ◌≡◌, refl, sym, ◌∙◌, ap, Option, none, some, List, [], ◌∷◌, arith,
  length, set, get_elem?, resize, if◌then◌else◌, ◌==◌, ◌>>=◌, Returns, Bool-cases, Option-cases,
  inl, inr, length-resize, get_elem?-resize, get_elem?-set_self, get_elem?-set_ne, ==→eq, ==→ne,
}
use gpu_vmm.Common.Words.{u64_add}
use gpu_vmm.Tlb.Set.{TlbEntry, hit, touch, erase_first, hit-touch, hit-erase_first}
use gpu_vmm.Tlb.Invariant.{
  IsValid, empty-IsGood, touch-IsGood, erase_first-IsGood, home, home-lt, locate-home, set-IsValid,
}
use gpu_vmm.Tlb.{Config, Tlb, create, initialize, num_sets, lookup, invalidate, flush}

abbrev look : ℕ → Option (List TlbEntry) → Option TlbEntry
look vpn none = none
look vpn (some s) = hit vpn s

abbrev pub stamp : ℕ → TlbEntry → TlbEntry
stamp now e = record e { timestamp = now }

-- The entry that a lookup of the page would find.
pub cached : Tlb → ℕ → Option TlbEntry
cached t vpn = look vpn (get_elem? t.sets (home t vpn))

-- For a configuration with at least one way and at least one set, `initialize` of a new TLB ends without a
-- fault in a valid cache of that configuration, in which no page is cached.
pub initialize_lem :
    (c : Config)
    → 0 < c.associativity
    → 0 < c.tlb_size / c.associativity
    → Returns
        (initialize (create c))
        λ t. (t.config ≡ c) × IsValid t × ((vpn : ℕ) → cached t vpn ≡ none)
unfolding initialize num_sets create cached home hit
initialize_lem c ways sets =
    let n = c.tlb_size / c.associativity in
    let t : Tlb = record { config = c; sets = resize [] n []; hits = 0; misses = 0 } in
    let empty : (i : ℕ) (s : List TlbEntry) → get_elem? t.sets i ≡ some s → s ≡ [] =
      λ i s e. get_elem?-resize n i [] s e in
    let a : (c.associativity == 0) ≡ false = ground arith in
    (
      t,
      rw (a, ◌>>=◌),
      (
        refl,
        (record {
          ways_pos = ways;
          sets_pos = sets;
          sized = length-resize [] n [];
          good = λ i s e. rw (empty i s e) (empty-IsGood c.associativity);
        }),
        λ vpn. elim (Option-cases (get_elem? t.sets (home t vpn))) [
          | inl e ↦ ap (look vpn) e
          | inr (s, e) ↦ ap (look vpn) e ∙ ap (hit vpn) (empty (home t vpn) s e)
        ],
      ),
    )

module _ (t : Tlb) (v : IsValid t) (vpn : ℕ) where
  -- The map after one set was rewritten.
  pub cached-set :
      (hits misses : ℕ) (s : List TlbEntry) (j : ℕ)
      → cached (record t { sets = set t.sets (home t vpn) s; hits = hits; misses = misses }) j
        ≡ (if home t vpn == home t j then hit j s else cached t j)
  unfolding cached home
  cached-set hits misses s j = elim (Bool-cases (home t vpn == home t j)) [
    | inl same ↦
        let e : home t j ≡ home t vpn = sym (==→eq _ _ same) in
        rw same (
          ap (λ i. look j (get_elem? (set t.sets (home t vpn) s) i)) e
          ∙ ap (look j) (get_elem?-set_self t.sets (home t vpn) s (home-lt t v vpn)))
    | inr other ↦
        rw other (ap (look j) (get_elem?-set_ne t.sets (home t vpn) (home t j) s (==→ne _ _ other)))
  ]

  -- What the set of the page holds is what a lookup of the page finds.
  pub cached-home :
      (s : List TlbEntry) (j : ℕ)
      → get_elem? t.sets (home t vpn) ≡ some s
      → home t vpn ≡ home t j
      → cached t j ≡ hit j s
  unfolding cached
  cached-home s j e same = ap (λ i. look j (get_elem? t.sets i)) (sym same) ∙ ap (look j) e

  cached-misses : (misses j : ℕ) → cached (record t { misses = misses }) j ≡ cached t j
  unfolding cached home
  cached-misses misses j = refl

  -- On a valid cache `invalidate` ends without a fault, keeps the cache valid, and forgets the page and no other.
  pub invalidate_lem :
      Returns
        (invalidate t vpn)
        λ u. IsValid u × ((j : ℕ) → cached u j ≡ (if vpn == j then none else cached t j))
  unfolding invalidate
  invalidate_lem =
      let (s, e, run, g) = locate-home t v vpn in
      let i = home t vpn in
      let rest = erase_first vpn s in
      (
        record t { sets = set t.sets i rest },
        rw (run, ◌>>=◌),
        (
          set-IsValid t v i t.hits t.misses rest (home-lt t v vpn)
              (erase_first-IsGood vpn t.config.associativity s g),
          λ j. ground (
            arith,
            cached-set t.hits t.misses rest j,
            hit-erase_first vpn j s (g.distinct vpn),
            cached-home s j e,
          ),
        ),
      )

  -- On a valid cache `lookup` ends without a fault, keeps the cache valid, gives the cached entry of the page,
  -- if there is one, with the time as its stamp, leaves that entry cached and the entries of the other pages
  -- as they were, and adds one to the sum of hits and misses.
  pub lookup_lem :
      (now : ℕ)
      → Returns (lookup now t vpn) λ r.
        IsValid r.0
        × (r.1 ≡ Option.map (stamp now) (cached t vpn))
        × ((j : ℕ) → cached r.0 j ≡ (if vpn == j then r.1 else cached t j))
        × (u64_add r.0.hits r.0.misses ≡ u64_add (u64_add t.hits t.misses) 1)
  unfolding lookup
  lookup_lem now =
      let (s, e, run, g) = locate-home t v vpn in
      let here = cached-home s vpn e refl in
      elim (Option-cases (hit vpn s)) [
        | inl miss ↦ (
          (record t { misses = u64_add t.misses 1 }, none),
          rw (run, ◌>>=◌, miss),
          (
            record { ways_pos = v.ways_pos; sets_pos = v.sets_pos; sized = v.sized; good = v.good },
            ground (arith, here),
            λ j. ground (arith, here, cached-misses (u64_add t.misses 1) j),
            omega arith,
          ),
        )
        | inr (x, found) ↦
            let r = touch now vpn s in
            (
              (
                record t { sets = set t.sets (home t vpn) r; hits = u64_add t.hits 1 },
                some (record x { timestamp = now }),
              ),
              rw (run, ◌>>=◌, found),
              (
                set-IsValid t v (home t vpn) (u64_add t.hits 1) t.misses r (home-lt t v vpn)
                    (touch-IsGood now vpn t.config.associativity s g),
                ground (arith, here),
                λ j. ground (
                  arith,
                  cached-set (u64_add t.hits 1) t.misses r j,
                  hit-touch now vpn j s x found,
                  cached-home s j e,
                ),
                omega arith,
              ),
            )
      ]

flush_sets :
    (sets : List (List TlbEntry)) (i : ℕ) (s : List TlbEntry)
    → get_elem? (map {B = List TlbEntry} (λ _. []) sets) i ≡ some s
    → s ≡ []
flush_sets [] i s h = ground arith
flush_sets (x ∷ xs) zero s h = ground arith
flush_sets (x ∷ xs) (suc i) s h = flush_sets xs i s h

flush_length :
    (sets : List (List TlbEntry)) → length (map {B = List TlbEntry} (λ _. []) sets) ≡ length sets
flush_length [] = refl
flush_length (x ∷ xs) = ap suc (flush_length xs)

-- `flush` forgets every page and keeps the cache valid.
pub flush_lem :
    (t : Tlb) → IsValid t → IsValid (flush t) × ((vpn : ℕ) → cached (flush t) vpn ≡ none)
unfolding flush cached home hit
flush_lem t v = (
  record {
    ways_pos = v.ways_pos;
    sets_pos = v.sets_pos;
    sized = flush_length t.sets ∙ v.sized;
    good = λ i s e. rw (flush_sets t.sets i s e) (empty-IsGood t.config.associativity);
  },
  λ vpn. elim (Option-cases (get_elem? (flush t).sets (home t vpn))) [
    | inl e ↦ ap (look vpn) e
    | inr (s, e) ↦ ap (look vpn) e ∙ ap (hit vpn) (flush_sets t.sets (home t vpn) s e)
  ],
)
