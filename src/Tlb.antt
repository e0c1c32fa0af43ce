-- ===== src/Tlb.antt =====
-- src/vm/TLB.h and src/vm/TLB.cpp: a set-associative translation cache. The mutex makes each member
-- function one step. A function that reads the clock takes the reading `now`: all readings of one call
-- stamp the one entry that the call writes.
pub mod Set
pub mod Evict
pub mod Invariant
pub mod View
pub mod Insert
use gpu_vmm.Prelude.{
  ℕ, zero, suc, ◌+◌, ◌/◌, ◌%◌, ◌≡◌, Bool, true, false, ◌&&◌, Option, none, some, List, [], ◌∷◌,
  ◌++◌, if◌then◌else◌, ltb, ◌==◌, length, set, get_elem?, resize, map, Run, ok, fault, ◌>>=◌,
}
use gpu_vmm.Common.Words.{u64_add}
use gpu_vmm.Common.Hash.{hash_vpn}
use Set.{TlbEntry, hit, touch, present, assign, erase_first, evict_lru}

pub record Config : Type 0 where
  pub tlb_size : ℕ
  pub associativity : ℕ

pub record Tlb : Type 0 where
  pub config : Config
  pub sets : List (List TlbEntry)
  pub hits : ℕ
  pub misses : ℕ

unfoldable pub create : Config → Tlb
create config = record { config = config; sets = []; hits = 0; misses = 0 }

-- `tlb_size / associativity`; a division by zero is undefined.
unfoldable pub num_sets : Config → Run ℕ
num_sets c = if c.associativity == 0 then fault else ok (c.tlb_size / c.associativity)

unfoldable pub initialize : Tlb → Run Tlb
unfolding num_sets
initialize t = do n ← num_sets t.config; ok (record t { sets = resize t.sets n [] })

unfoldable pub get_set_index : Tlb → ℕ → Run ℕ
unfolding num_sets
get_set_index t vpn = do n ← num_sets t.config; if n == 0 then fault else ok (hash_vpn vpn % n)

-- `sets_[get_set_index(vpn)]`, with its index.
unfoldable pub locate : Tlb → ℕ → Run (ℕ × List TlbEntry)
unfolding get_set_index
locate t vpn = do
  i ← get_set_index t vpn
  elim (get_elem? t.sets i) [ none ↦ fault | some s ↦ ok (i, s) ]

-- Whether the page is cached, and then the entry that `*out_entry` is set to.
unfoldable pub lookup : ℕ → Tlb → ℕ → Run (Tlb × Option TlbEntry)
unfolding locate hit touch
lookup now t vpn = do
  (i, s) ← locate t vpn
  elim (hit vpn s) [
    | some e ↦ ok (
      record t { sets = set t.sets i (touch now vpn s); hits = u64_add t.hits 1 },
      some (record e { timestamp = now }),
    )
    | none ↦ ok (record t { misses = u64_add t.misses 1 }, none)
  ]

-- The new contents of the set.
unfoldable pub insert_in : ℕ → ℕ → ℕ → TlbEntry → List TlbEntry → List TlbEntry
unfolding present assign evict_lru
insert_in now ways vpn entry s =
    let new_entry = record entry { timestamp = now; valid = true } in
    if present vpn s
    then assign vpn (record entry { timestamp = now }) s
    else if ltb (length s) ways
    then s ++ new_entry ∷ []
    else evict_lru s ++ new_entry ∷ []

unfoldable pub insert : ℕ → Tlb → ℕ → TlbEntry → Run Tlb
unfolding locate insert_in
insert now t vpn entry = do
  (i, s) ← locate t vpn
  ok (record t { sets = set t.sets i (insert_in now t.config.associativity vpn entry s) })

unfoldable pub invalidate : Tlb → ℕ → Run Tlb
unfolding locate erase_first
invalidate t vpn = do
  (i, s) ← locate t vpn
  ok (record t { sets = set t.sets i (erase_first vpn s) })

unfoldable pub flush : Tlb → Tlb
flush t = record t { sets = map (λ _. []) t.sets }

unfoldable pub reset_stats : Tlb → Tlb
reset_stats t = record t { hits = 0; misses = 0 }
