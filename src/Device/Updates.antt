-- ===== src/Device/Updates.antt =====
-- What `kernel_random_access` leaves of its increments.
use native.Mathlib.Nat.{mod-lt}
use gpu_vmm.Prelude.{
  ℕ, zero, suc, ◌+◌, ◌≤◌, ◌<◌, ◌≡◌, ◌⊎◌, inl, inr, refl, sym, ◌∙◌, subst, some, List, [], ◌∷◌,
  length, set, get_elem?, arith, ◌==◌, Bool-cases, Option-cases, ==→eq, ==→ne, length-set,
  get_elem?-set_self, get_elem?-set_ne, get_elem?-lt, get_elem?-in_range, false, ◌%◌, Returns,
}
use gpu_vmm.Common.Words.{u32_mod, u32_add}
use gpu_vmm.Device.Race.{
  Progress, fresh, done, loaded, Launch, page_index, act, step, kernel_random_access,
}
use gpu_vmm.Device.Stores.{
  stored_to, stores, stores-le, stores-act, all_fresh, get_elem?-all_fresh, length-all_fresh,
  stores-all_fresh,
}

module _ (indices : List ℕ) (num_elements j : ℕ) where
  -- With `old` in element `j` at first, and at most `n` threads.
  record Bounded (old n : ℕ) (s : Launch) : Type 0 where
    val : ℕ
    here : get_elem? s.pages j ≡ some val
    low : old ≤ val
    high : val ≤ old + stores indices num_elements j 0 s.threads
    one_more : 1 ≤ stores indices num_elements j 0 s.threads → old + 1 ≤ val
    held :
        (k w : ℕ)
        → get_elem? s.threads k ≡ some (loaded w)
        → page_index indices num_elements k ≡ some j
        → (old ≤ w) × (w ≤ old + stores indices num_elements j 0 s.threads)
    size : length s.threads ≤ n

  load-Bounded :
      (old n k p val : ℕ) (s : Launch)
      → Bounded old n s
      → page_index indices num_elements k ≡ some p
      → get_elem? s.pages p ≡ some val
      → get_elem? s.threads k ≡ some fresh
      → Bounded old n (act k p val fresh s)
  unfolding act stored_to
  load-Bounded old n k p val s b target found at_k =
      let same : stores indices num_elements j 0 (set s.threads k (loaded val))
          ≡ stores indices num_elements j 0 s.threads =
        omega
          (arith, stores-act indices num_elements j k p s.threads fresh (loaded val) target at_k) in
      record {
        val = b.val;
        here = b.here;
        low = b.low;
        high = rw same b.high;
        one_more = rw same b.one_more;
        held = λ i w at_i to_j. rw same (elim (Bool-cases (k == i)) [
          | inl own ↦
              let e = ==→eq k i own in
              let now =
                get_elem?-set_self s.threads k (loaded val) (get_elem?-lt s.threads k fresh at_k) in
              let target_i = rw e at target in
              let p_is_j : p ≡ j = ground (arith, target_i, to_j) in
              let loaded_w : w ≡ b.val = ground (arith, now, at_i, e, found, b.here, p_is_j) in
              (omega (arith, loaded_w, b.low), omega (arith, loaded_w, b.high))
          | inr other ↦
              b.held i w
                (sym (get_elem?-set_ne s.threads k i (loaded val) (==→ne k i other)) ∙ at_i) to_j
        ]);
        size = omega (arith, length-set s.threads k (loaded val), b.size);
      }

  -- What the other threads hold after thread `k` has stored.
  still_held :
      (old n k w : ℕ) (s : Launch)
      → Bounded old n s
      → get_elem? s.threads k ≡ some (loaded w)
      → (i x : ℕ) → get_elem? (set s.threads k done) i ≡ some (loaded x)
      → page_index indices num_elements i ≡ some j
      → (old ≤ x) × (x ≤ old + stores indices num_elements j 0 s.threads)
  still_held old n k w s b at_k i x at_i to_j = elim (Bool-cases (k == i)) [
    | inl own ↦
        let e = ==→eq k i own in
        let now = get_elem?-set_self s.threads k done (get_elem?-lt s.threads k (loaded w) at_k) in
        absurd (ground (arith, now, at_i, e))
    | inr other ↦
        b.held i x (sym (get_elem?-set_ne s.threads k i done (==→ne k i other)) ∙ at_i) to_j
  ]

  store-Bounded :
      (old n k p val w : ℕ) (s : Launch)
      → old + n < u32_mod
      → Bounded old n s
      → page_index indices num_elements k ≡ some p
      → get_elem? s.pages p ≡ some val
      → get_elem? s.threads k ≡ some (loaded w)
      → Bounded old n (act k p val (loaded w) s)
  unfolding act stored_to
  store-Bounded old n k p val w s in_32 b target found at_k =
      let change = stores-act indices num_elements j k p s.threads (loaded w) done target at_k in
      let bound = stores-le indices num_elements j 0 (set s.threads k done) in
      let size : length (set s.threads k done) ≤ n =
        omega (arith, length-set s.threads k done, b.size) in
      elim (Bool-cases (p == j)) [
        | inl own ↦
            let e = ==→eq p j own in
            let held = b.held k w at_k (rw e at target) in
            let more : stores indices num_elements j 0 (set s.threads k done)
                ≡ stores indices num_elements j 0 s.threads + 1 =
              ground (arith, change, own) in
            record {
              val = u32_add w 1;
              here =
                  subst (λ x. get_elem? (set s.pages p (u32_add w 1)) x ≡ some (u32_add w 1)) e
                    (get_elem?-set_self s.pages p (u32_add w 1) (get_elem?-lt s.pages p val found));
              low = omega (arith, held, more, bound, size);
              high = omega (arith, held, more, bound, size);
              one_more = λ h. omega (arith, held, more, bound, size);
              held = λ i x at_i to_j.
                  let x_held = still_held old n k w s b at_k i x at_i to_j in
                  (omega (arith, x_held), omega (arith, x_held, more));
              size = size;
            }
        | inr other ↦
            let same : stores indices num_elements j 0 (set s.threads k done)
                ≡ stores indices num_elements j 0 s.threads =
              ground (arith, change, other) in
            record {
              val = b.val;
              here = get_elem?-set_ne s.pages p j (u32_add w 1) (==→ne p j other) ∙ b.here;
              low = b.low;
              high = rw same b.high;
              one_more = rw same b.one_more;
              held = λ i x at_i to_j. rw same (still_held old n k w s b at_k i x at_i to_j);
              size = size;
            }
      ]

  act-Bounded :
      (old n k p val : ℕ) (s : Launch)
      → old + n < u32_mod
      → Bounded old n s
      → page_index indices num_elements k ≡ some p
      → get_elem? s.pages p ≡ some val
      → (q : Progress) → get_elem? s.threads k ≡ some q
      → Bounded old n (act k p val q s)
  act-Bounded old n k p val s in_32 b e d fresh at_k = load-Bounded old n k p val s b e d at_k
  act-Bounded old n k p val s in_32 b e d (loaded w) at_k =
      store-Bounded old n k p val w s in_32 b e d at_k
  act-Bounded old n k p val s in_32 b e d done at_k = unfold act in b

  length-act :
      (k p val : ℕ) (q : Progress) (s : Launch) → length (act k p val q s).pages ≡ length s.pages
  unfolding act
  length-act k p val fresh s = refl
  length-act k p val (loaded w) s = length-set s.pages p (u32_add w 1)
  length-act k p val done s = refl

  -- What is kept: the bounds and the size of the array.
  record Kept (old n size : ℕ) (s : Launch) : Type 0 where
    bounded : Bounded old n s
    pages : length s.pages ≡ size

  module _ (some_elements : 1 ≤ num_elements) where
    page_index-lt : (k p : ℕ) → page_index indices num_elements k ≡ some p → p < num_elements
    unfolding page_index
    page_index-lt k p e = elim (Option-cases (get_elem? indices k)) [
      | inl d ↦ absurd (ground (arith, e, d))
      | inr (x, d) ↦
          let p_eq : p ≡ x % num_elements = ground (arith, e, d) in
          let small = mod-lt x some_elements in omega (arith, p_eq, small)
    ]

    step-Kept :
        (old n size k : ℕ) (s : Launch)
        → old + n < u32_mod
        → num_elements ≤ size
        → Kept old n size s
        → Returns (step indices num_elements k s) (Kept old n size)
    unfolding step
    step-Kept old n size k s in_32 held b =
        elim (Option-cases (page_index indices num_elements k)) [
          | inl e ↦ (s, ground (arith, e), b)
          | inr (p, e) ↦
              let some_there : (num_elements == 0) ≡ false = ground (arith, some_elements) in
              let inside = page_index-lt k p e in
              let (val, d) = get_elem?-in_range s.pages p (omega (arith, inside, held, b.pages)) in
              elim (Option-cases (get_elem? s.threads k)) [
                | inl c ↦ (s, ground (arith, e, d, c, some_there), b)
                | inr (q, c) ↦ (
                  act k p val q s,
                  ground (arith, e, d, c, some_there),
                  (record {
                    bounded = act-Bounded old n k p val s in_32 b.bounded e d q c;
                    pages = length-act k p val q s ∙ b.pages;
                  }),
                )
              ]
        ]

    run-Kept :
        (old n size : ℕ) (schedule : List ℕ) (s : Launch)
        → old + n < u32_mod
        → num_elements ≤ size
        → Kept old n size s
        → Returns (kernel_random_access indices num_elements schedule s) (Kept old n size)
    unfolding kernel_random_access
    run-Kept old n size [] s in_32 held b = (s, refl, b)
    run-Kept old n size (k ∷ schedule) s in_32 held b =
        let (u, at_u, c) = step-Kept old n size k s in_32 held b in
        let (after, at_after, d) = run-Kept old n size schedule u in_32 held c in
        (after, rw at_u at_after, d)

none_or_more : (k a b : ℕ) → (1 ≤ k → a ≤ b) → (k ≡ 0) ⊎ (a ≤ b)
none_or_more zero a b h = inl refl
none_or_more (suc k) a b h = inr (h (omega arith))

-- Let `num_elements` be positive and at most the size of the array. In whatever order the device lets the threads
-- of `kernel_random_access` load and store, and after any number of these actions, there is no fault, and an element
-- that `k` threads have stored to has grown by at most `k`, and, if `k` is not 0, by at least one. The element and
-- the number of indices together stay below 2 ^ 32.
pub kernel_random_access_bounds :
    (indices pages schedule : List ℕ) (num_elements j old : ℕ)
    → 1 ≤ num_elements
    → num_elements ≤ length pages
    → get_elem? pages j ≡ some old
    → old + length indices < u32_mod
    → Returns
        (kernel_random_access indices num_elements schedule
          (record { pages = pages; threads = all_fresh (length indices) }))
        λ after.
          (val : ℕ) × (get_elem? after.pages j ≡ some val)
          × (old ≤ val)
          × (val ≤ old + stores indices num_elements j 0 after.threads)
          × ((stores indices num_elements j 0 after.threads ≡ 0) ⊎ (old + 1 ≤ val))
kernel_random_access_bounds indices pages schedule num_elements j old some_elements held at_j
      in_32 =
    let n = length indices in
    let none_stored = stores-all_fresh indices num_elements j 0 n in
    let b : Bounded indices num_elements j old n (record { pages = pages; threads = all_fresh n }) =
      record {
        val = old;
        here = at_j;
        low = omega arith;
        high = omega arith;
        one_more = λ h. absurd (omega (arith, none_stored, h));
        held = λ k w h to_j. elim (get_elem?-all_fresh n k w h) [ ];
        size = omega (arith, length-all_fresh n);
      } in
    let (s, run, after) =
      run-Kept indices num_elements j some_elements old n (length pages) schedule
        (record { pages = pages; threads = all_fresh n }) in_32 held
        (record { bounded = b; pages = refl }) in
    let c = after.bounded in
    (
      s,
      run,
      (
        c.val,
        c.here,
        c.low,
        c.high,
        none_or_more (stores indices num_elements j 0 s.threads) (old + 1) c.val c.one_more,
      ),
    )
