-- ===== src/Device/Grid.antt =====
-- The launches against the loops that they stand for.
use gpu_vmm.Prelude.{
  ℕ, zero, suc, ◌+◌, ◌*◌, ◌%◌, ◌≤◌, ◌<◌, ◌≡◌, refl, sym, ◌∙◌, false, ◌&&◌, List, [], ◌∷◌, ◌++◌,
  arith, if◌then◌else◌, ltb, leb, ◌==◌, get_elem?, Bool-cases, Option-cases, inl, inr, get_elem?-lt,
  get_elem?-in_range, length, length-set, set, ok, fault, Returns, ap, some, ◌⊎◌, ◌<◌, ltb→lt,
  ltb→le,
}
use gpu_vmm.Common.Words.{u32_mod, u32_add}
use gpu_vmm.Device.Elements.{
  times, each, treat, treat_all, length-treat, treat_all-unreached, treat_all-reached,
  get_elem?-each, get_elem?_ext,
}
use gpu_vmm.Device.{
  on_element, read_element, write_element, sequential_element, kernel_read_pages,
  kernel_write_pages, kernel_sequential_access, block_size, grid_size, thread_index, block_threads,
  threads, launch,
}

times-append : (i : ℕ) (xs ys : List ℕ) → times i (xs ++ ys) ≡ times i xs + times i ys
unfolding times
times-append i [] ys = omega arith
times-append i (x ∷ xs) ys = omega (arith, times-append i xs ys)

times-block_threads :
    (i block n : ℕ)
    → block * block_size + n ≤ u32_mod
    → times i (block_threads block n)
      ≡ (if leb (block * block_size) i && ltb i (block * block_size + n) then 1 else 0)
unfolding times block_threads thread_index
times-block_threads i block zero h = ground arith
times-block_threads i block (suc n) h = ground (arith, times-block_threads i block n)

one_more_block :
    (i m k : ℕ)
    → (if leb m i && ltb i (m + k) then 1 else 0) + (if ltb i m then 1 else 0)
      ≡ (if ltb i (m + k) then 1 else 0)
one_more_block i m k = ground arith

times-threads :
    (i blocks : ℕ)
    → blocks * block_size ≤ u32_mod
    → times i (threads blocks) ≡ (if ltb i (blocks * block_size) then 1 else 0)
unfolding times threads
times-threads i zero h = ground arith
times-threads i (suc blocks) h =
    let block = times-block_threads i blocks block_size (omega arith) in
    let rest = times-threads i blocks (omega arith) in
    let more : suc blocks * block_size ≡ blocks * block_size + block_size = omega arith in
    times-append i (block_threads blocks block_size) (threads blocks)
    ∙ rw (block, rest, more) (one_more_block i (blocks * block_size) block_size)

-- No thread has an index of 2 ^ 32 or more.
times_block_beyond : (i block n : ℕ) → u32_mod ≤ i → times i (block_threads block n) ≡ 0
unfolding times block_threads thread_index
times_block_beyond i block zero h = refl
times_block_beyond i block (suc n) h = ground (arith, times_block_beyond i block n h)

times_beyond : (i blocks : ℕ) → u32_mod ≤ i → times i (threads blocks) ≡ 0
unfolding times threads
times_beyond i zero h = refl
times_beyond i (suc blocks) h = omega (
  arith,
  times-append i (block_threads blocks block_size) (threads blocks),
  times_block_beyond i blocks block_size h,
  times_beyond i blocks h,
)

-- The grid covers the elements and stays within 32 bits.
pub grid_size-covers :
    (n : ℕ) → n ≤ u32_mod → (n ≤ grid_size n * block_size) × (grid_size n * block_size ≤ u32_mod)
unfolding grid_size
grid_size-covers n h = omega arith

treat_all-each :
    (after : ℕ → ℕ → ℕ) (n : ℕ) (order pages : List ℕ)
    → n ≤ u32_mod
    → n ≤ grid_size n * block_size
    → ((j : ℕ) → times j order ≡ (if ltb j (grid_size n * block_size) then 1 else 0))
    → treat_all after n order pages ≡ each after n 0 pages
treat_all-each after n order pages h covers count =
    get_elem?_ext (treat_all after n order pages) (each after n 0 pages) (λ j.
      let sequential = get_elem?-each after n 0 j pages in
      let zero_on : 0 + j ≡ j = omega arith in
      elim (Bool-cases (ltb j (grid_size n * block_size))) [
        | inl inside ↦
            let once : times j order ≡ 1 = count j ∙ rw inside in
            treat_all-reached after n order j pages once ∙ sym (rw zero_on at sequential)
        | inr outside ↦
            let never : times j order ≡ 0 = count j ∙ rw outside in
            let past : ltb j n ≡ false = ground arith in
            treat_all-unreached after n order j pages never ∙ sym (rw (zero_on, past) at sequential)
      ])

module _ (after : ℕ → ℕ → ℕ) (n : ℕ) where
  -- A thread whose element, if it is below `n`, is in the array.
  on_element-treat :
      (idx : ℕ) (pages : List ℕ)
      → n ≤ length pages
      → on_element after n idx pages ≡ ok (treat after n idx pages)
  unfolding on_element treat
  on_element-treat idx pages h = elim (Bool-cases (ltb idx n)) [
    | inr past ↦ rw past refl
    | inl below ↦
        let (v, e) = get_elem?-in_range pages idx (omega (arith, ltb→lt idx n below)) in
        ground (arith, below, e)
  ]

  launch-treat_all :
      (order pages : List ℕ)
      → n ≤ length pages
      → launch (on_element after n) order pages ≡ ok (treat_all after n order pages)
  unfolding launch treat_all
  launch-treat_all [] pages h = refl
  launch-treat_all (idx ∷ order) pages h = rw (on_element-treat idx pages h) (
      launch-treat_all order (treat after n idx pages)
        (omega (arith, length-treat after n idx pages)))

  on_element_cases :
      (idx : ℕ) (pages : List ℕ)
      → (on_element after n idx pages ≡ fault)
        ⊎ (((idx ≡ length pages) → n ≤ idx)
            × Returns (on_element after n idx pages) λ r. length r ≡ length pages)
  unfolding on_element
  on_element_cases idx pages = elim (Bool-cases (ltb idx n)) [
    | inr past ↦ inr (λ e. ltb→le idx n past, (pages, rw past refl, refl))
    | inl below ↦ elim (Option-cases (get_elem? pages idx)) [
      | inl e ↦ inl (ground (arith, below, e))
      | inr (v, e) ↦
          let inside = get_elem?-lt pages idx v e in
          inr (
            λ same. absurd (omega (arith, inside, same)),
            (
              set pages idx (after idx v),
              ground (arith, below, e),
              length-set pages idx (after idx v),
            ),
          )
    ]
  ]

  -- The array is too short, and some thread has the first index that it lacks.
  launch-fault :
      (order pages : List ℕ)
      → length pages < n
      → 1 ≤ times (length pages) order
      → launch (on_element after n) order pages ≡ fault
  unfolding launch times
  launch-fault [] pages h t = absurd (omega arith)
  launch-fault (idx ∷ order) pages h t = elim (on_element_cases idx pages) [
    | inl e ↦ rw e refl
    | inr (here, (r, e, same)) ↦
        let apart : (idx == length pages) ≡ false = ground (arith, here, h) in
        let later : 1 ≤ times (length r) order = rw same (ground (arith, t, apart)) in
        rw e (launch-fault order r (omega (arith, same)) later)
  ]

launch-each :
    (after : ℕ → ℕ → ℕ) (n : ℕ) (order pages : List ℕ)
    → n ≤ u32_mod
    → ((i : ℕ) → times i order ≡ times i (threads (grid_size n)))
    → launch (on_element after n) order pages
      ≡ (if leb n (length pages) then ok (each after n 0 pages) else fault)
launch-each after n order pages h same =
    let (covers, fits) = grid_size-covers n h in
    let count = λ (j : ℕ). same j ∙ times-threads j (grid_size n) fits in
    elim (Bool-cases (leb n (length pages))) [
      | inl held ↦ rw held (
          launch-treat_all after n order pages (ground arith)
          ∙ ap ok (treat_all-each after n order pages h covers count))
      | inr short ↦
          let first = count (length pages) in
          rw short (launch-fault after n order pages (ground arith) (ground (arith, first, covers)))
    ]

-- For at most 2 ^ 32 elements, the launches of `kernel_read_pages`, `kernel_write_pages` and
-- `kernel_sequential_access`, their threads in any order, give the array that a loop over the elements, one after
-- another, gives, if the array has that many elements; if it has fewer, they fault.
pub launch_lem :
    (n value passes : ℕ) (order pages : List ℕ)
    → n ≤ u32_mod
    → ((i : ℕ) → times i order ≡ times i (threads (grid_size n)))
    → (launch (kernel_read_pages n) order pages
        ≡ (if leb n (length pages) then ok (each read_element n 0 pages) else fault))
      × (launch (kernel_write_pages value n) order pages
          ≡ (if leb n (length pages) then ok (each (write_element value) n 0 pages) else fault))
      × (launch (kernel_sequential_access passes n) order pages ≡ (
          if leb n (length pages) then ok (each (sequential_element passes) n 0 pages) else fault))
unfolding kernel_read_pages kernel_write_pages kernel_sequential_access
launch_lem n value passes order pages h same = (
  launch-each read_element n order pages h same,
  launch-each (write_element value) n order pages h same,
  launch-each (sequential_element passes) n order pages h same,
)

-- The passes of `kernel_sequential_access` add up: a 32-bit element grows by their number, modulo 2 ^ 32.
pub sequential_element_sum :
    (passes idx val : ℕ)
    → val < u32_mod
    → sequential_element passes idx val ≡ (val + passes) % u32_mod
unfolding sequential_element
sequential_element_sum zero idx val h = omega arith
sequential_element_sum (suc passes) idx val h =
    omega (arith, sequential_element_sum passes idx (u32_add val 1) (omega arith))

-- The index of a thread is computed in 32 bits: for an array of any size, all of whose elements `kernel_write_pages` is
-- to write, and any number of blocks, the launch ends without a fault, and every element from index 2 ^ 32 on has
-- the value that it had before.
pub launch_beyond :
    (value blocks i v : ℕ) (pages : List ℕ)
    → u32_mod ≤ i
    → get_elem? pages i ≡ some v
    → Returns
        (launch (kernel_write_pages value (length pages)) (threads blocks) pages)
        λ after. get_elem? after i ≡ some v
unfolding kernel_write_pages
launch_beyond value blocks i v pages h at_i =
    let n = length pages in
    (
      treat_all (write_element value) n (threads blocks) pages,
      launch-treat_all (write_element value) n (threads blocks) pages (omega arith),
      treat_all-unreached (write_element value) n (threads blocks) i pages (times_beyond i blocks h)
          ∙ at_i,
    )
