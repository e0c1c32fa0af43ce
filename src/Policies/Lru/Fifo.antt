-- ===== src/Policies/Lru/Fifo.antt =====
-- `LRUPolicy` is a bounded queue of the allocations: neither accesses nor frees change who is evicted.
use mathlib.Core.Path.{ap₂}
use mathlib.Core.List.{append_assoc, append-nil}
use gpu_vmm.Prelude.{
  ℕ, zero, suc, ◌+◌, ◌-◌, ◌≤◌, ◌≡◌, refl, sym, ◌∙◌, ap, List, [], ◌∷◌, ◌++◌, ltb, length, drop,
  take, arith, length-append, Bool-cases, inl, inr,
}
use gpu_vmm.Prelude.Assoc.{add, remove}
use gpu_vmm.Policies.Lru.{
  LruPolicy, create, on_page_access, trim, on_page_allocated, on_page_freed, select_victim,
}

pub data Event : Type 0 where
  accessed allocated freed : ℕ → Event

pub handle : LruPolicy → Event → LruPolicy
handle p (accessed vpn) = on_page_access p vpn
handle p (allocated vpn) = on_page_allocated p vpn
handle p (freed vpn) = on_page_freed p vpn

pub run : LruPolicy → List Event → LruPolicy
run p [] = p
run p (e ∷ es) = run (handle p e) es

-- The pages that the events allocate, oldest first.
unfoldable pub allocations : List Event → List ℕ
allocations [] = []
allocations (accessed vpn ∷ es) = allocations es
allocations (allocated vpn ∷ es) = vpn ∷ allocations es
allocations (freed vpn ∷ es) = allocations es

-- The last `n` of a list.
unfoldable pub keep_last : ℕ → List ℕ → List ℕ
keep_last n xs = drop (length xs - n) xs

trim-keep_last : (n : ℕ) (xs active : List ℕ) → (trim n xs active).0 ≡ keep_last n xs
unfolding trim keep_last
trim-keep_last n [] active = ground arith
trim-keep_last n (x ∷ xs) active = elim (Bool-cases (ltb n (length (x ∷ xs)))) [
  | inl long ↦
      let e : suc (length xs) - n ≡ suc (length xs - n) = ground (arith, long) in
      rw (long, e) (trim-keep_last n xs (remove x active))
  | inr fits ↦ let e : suc (length xs) - n ≡ 0 = ground (arith, fits) in rw (fits, e)
]

drop-append : (k : ℕ) (xs ys : List ℕ) → k ≤ length xs → drop k xs ++ ys ≡ drop k (xs ++ ys)
drop-append zero xs ys h = refl
drop-append (suc k) [] ys h = absurd (omega arith)
drop-append (suc k) (x ∷ xs) ys h = drop-append k xs ys (omega arith)

drop-nil : (n : ℕ) → drop {A = ℕ} n [] ≡ []
drop-nil zero = refl
drop-nil (suc n) = refl

drop-drop : (i j : ℕ) (xs : List ℕ) → drop i (drop j xs) ≡ drop (j + i) xs
drop-drop i zero xs = ap (λ n. drop n xs) (omega arith)
drop-drop i (suc j) [] = drop-nil i ∙ sym (drop-nil (suc j + i))
drop-drop i (suc j) (x ∷ xs) =
    let e : suc j + i ≡ suc (j + i) = omega arith in
    drop-drop i j xs ∙ sym (ap (λ n. drop n (x ∷ xs)) e)

length-drop : (k : ℕ) (xs : List ℕ) → length (drop k xs) ≡ length xs - k
length-drop zero xs = omega arith
length-drop (suc k) [] = omega arith
length-drop (suc k) (x ∷ xs) = omega (arith, length-drop k xs)

keep_last-keep_last :
    (n : ℕ) (xs ys : List ℕ) → keep_last n (keep_last n xs ++ ys) ≡ keep_last n (xs ++ ys)
unfolding keep_last
keep_last-keep_last n xs ys =
    let k = length xs - n in
    let e : length (drop k (xs ++ ys)) - n + k ≡ length (xs ++ ys) - n =
      omega (arith, length-drop k (xs ++ ys), length-append xs ys) in
    rw (drop-append k xs ys (omega arith), drop-drop)
      (ap (λ i. drop i (xs ++ ys)) (omega (arith, e)))

handle-max : (p : LruPolicy) (e : Event) → (handle p e).max_pages ≡ p.max_pages
unfolding handle on_page_access on_page_allocated on_page_freed
handle-max p (accessed vpn) = refl
handle-max p (allocated vpn) = refl
handle-max p (freed vpn) = refl

-- The queue holds at most `max_pages` pages.
abbrev pub IsBounded : LruPolicy → Type 0
IsBounded p = length p.lru_queue ≤ p.max_pages

keep_last_all : (n : ℕ) (xs : List ℕ) → length xs ≤ n → keep_last n xs ≡ xs
unfolding keep_last
keep_last_all n xs h = let e : length xs - n ≡ 0 = omega arith in rw e

length-keep_last : (n : ℕ) (xs : List ℕ) → length (keep_last n xs) ≤ n
unfolding keep_last
length-keep_last n xs = omega (arith, length-drop (length xs - n) xs)

-- After any events the queue is the last `max_pages` of the pages that were queued before and the pages
-- that the events allocate, in the order of allocation: accesses and frees make no difference.
pub run-queue :
    (p : LruPolicy) (es : List Event)
    → IsBounded p
    → (run p es).lru_queue ≡ keep_last p.max_pages (p.lru_queue ++ allocations es)
unfolding run allocations handle on_page_access on_page_freed on_page_allocated
run-queue p [] h = rw append-nil (sym (keep_last_all p.max_pages p.lru_queue h))
run-queue p (accessed vpn ∷ es) h = run-queue p es h
run-queue p (allocated vpn ∷ es) h =
    let n = p.max_pages in
    let q = p.lru_queue ++ vpn ∷ [] in
    let here : (on_page_allocated p vpn).lru_queue ≡ keep_last n q =
      trim-keep_last n q (add vpn p.active_pages) in
    let bounded : IsBounded (on_page_allocated p vpn) = rw here (length-keep_last n q) in
    run-queue (on_page_allocated p vpn) es bounded
    ∙ ap (λ r. keep_last n (r ++ allocations es)) here
    ∙ keep_last-keep_last n q (allocations es)
    ∙ ap (keep_last n) (append_assoc p.lru_queue (vpn ∷ []) (allocations es))
run-queue p (freed vpn ∷ es) h = run-queue (on_page_freed p vpn) es h

-- The next `n` victims.
pub victims : ℕ → LruPolicy → List ℕ
victims zero p = []
victims (suc n) p = (select_victim p).1 ∷ victims n (select_victim p).0

victims-take :
    (n : ℕ) (p : LruPolicy) (q : List ℕ) → p.lru_queue ≡ q → n ≤ length q → victims n p ≡ take n q
unfolding victims select_victim
victims-take zero p q e h = refl
victims-take (suc n) p [] e h = absurd (omega arith)
victims-take (suc n) p (v ∷ q) e h =
    let first : (select_victim p).1 ≡ v = rw (e, select_victim) in
    let rest : (select_victim p).0.lru_queue ≡ q = rw (e, select_victim) in
    ap₂ (◌∷◌) first (victims-take n (select_victim p).0 q rest (omega arith))

-- The victims of a policy are chosen first in, first out: after any accesses, allocations and frees on a
-- new policy the next `n` victims are the first `n` of the last `max_pages` allocations, in the order of
-- allocation, as long as there are so many. An accessed page is not spared, and a freed page is not left out.
pub victims-run :
    (max_pages n : ℕ) (es : List Event)
    → n ≤ length (keep_last max_pages (allocations es))
    → victims n (run (create max_pages) es) ≡ take n (keep_last max_pages (allocations es))
unfolding create
victims-run max_pages n es h = victims-take n _ _ (run-queue (create max_pages) es (omega arith)) h
