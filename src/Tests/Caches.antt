-- ===== src/Tests/Caches.antt =====
-- A cache with one set of two ways, which holds page 3.
use mathlib.Core.Option
use gpu_vmm.Prelude.{
  none, ℕ, zero, suc, ◌≡◌, refl, true, some, List, [], ◌∷◌, arith, get_elem?, if◌then◌else◌, ◌==◌,
  Returns,
}
use gpu_vmm.Common.Words.{u64_add}
use gpu_vmm.Tlb.Set.{TlbEntry, count}
use gpu_vmm.Tlb.Invariant.{IsGood, IsValid}
use gpu_vmm.Tlb.{invalidate, invalidate, Config, Tlb, lookup, insert}
use gpu_vmm.Tlb.View.{invalidate_lem, invalidate_lem, cached, stamp, lookup_lem}
use gpu_vmm.Tlb.Insert.{Inserts, insert_lem}

abbrev two_ways : Config
two_ways = record { tlb_size = 2; associativity = 2 }

abbrev three : TlbEntry
three = record { vpn = 3; valid = true; cpu_address = 4096; gpu_address = 0; timestamp = 9 }

abbrev four : TlbEntry
four = record { vpn = 4; valid = true; cpu_address = 4112; gpu_address = 0; timestamp = 0 }

abbrev pub cache : Tlb
cache = record { config = two_ways; sets = (three ∷ []) ∷ []; hits = 0; misses = 1 }

three-IsGood : IsGood 2 (three ∷ [])
unfolding count
three-IsGood = record { fits = omega arith; distinct = λ vpn. ground arith }

cache-IsGood : (i : ℕ) (s : List TlbEntry) → get_elem? cache.sets i ≡ some s → IsGood 2 s
cache-IsGood zero s e = ground (arith, three-IsGood)
cache-IsGood (suc i) s e = ground arith

pub cache-IsValid : IsValid cache
cache-IsValid = record {
  ways_pos = omega arith;
  sets_pos = omega arith;
  sized = refl;
  good = cache-IsGood;
}

lookup_lem_example : Returns (lookup 20 cache 3) λ r.
    IsValid r.0
    × (r.1 ≡ Option.map (stamp 20) (cached cache 3))
    × ((j : ℕ) → cached r.0 j ≡ (if 3 == j then r.1 else cached cache j))
    × (u64_add r.0.hits r.0.misses ≡ u64_add (u64_add 0 1) 1)
lookup_lem_example = lookup_lem cache cache-IsValid 3 20

insert_lem_example : Returns (insert 20 cache 4 four) (Inserts 20 cache 4 four)
insert_lem_example = insert_lem 20 cache 4 four cache-IsValid refl refl

invalidate_lem_example :
    Returns
      (invalidate cache 3)
      λ u. IsValid u × ((j : ℕ) → cached u j ≡ (if 3 == j then none else cached cache j))
invalidate_lem_example = invalidate_lem cache cache-IsValid 3
