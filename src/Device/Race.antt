-- ===== src/Device/Race.antt =====
-- `kernel_random_access` of src/device/device_helpers.cu: `pages[page_idx] += 1` is a load and a store, and several
-- threads may have the same `page_idx`. A schedule is the order in which the device lets the threads act.
use gpu_vmm.Prelude.{
  ℕ, ◌%◌, Option, none, some, List, [], ◌∷◌, set, get_elem?, if◌then◌else◌, ◌==◌, Run, ok, fault,
  ◌>>=◌,
}
use gpu_vmm.Common.Words.{u32_add}

-- A thread has still to load, holds what it loaded, or has stored.
pub data Progress : Type 0 where
  fresh done : Progress
  loaded : ℕ → Progress

pub record Launch : Type 0 where
  pub pages : List ℕ
  pub threads : List Progress

-- `indices[idx] % num_elements`
unfoldable pub page_index : List ℕ → ℕ → ℕ → Option ℕ
page_index indices num_elements idx = elim (get_elem? indices idx) [
  | none ↦ none
  | some x ↦ some (x % num_elements)
]

-- The next action of thread `idx`, whose element is `page_idx` with the value `val`.
unfoldable pub act : ℕ → ℕ → ℕ → Progress → Launch → Launch
act idx page_idx val fresh s = record s { threads = set s.threads idx (loaded val) }
act idx page_idx val (loaded old) s = record s {
  pages = set s.pages page_idx (u32_add old 1);
  threads = set s.threads idx done;
}
act idx page_idx val done s = s

-- A thread past the indices does nothing. A remainder by 0 and an element past the array are faults.
unfoldable pub step : List ℕ → ℕ → ℕ → Launch → Run Launch
unfolding page_index act
step indices num_elements idx s = elim (page_index indices num_elements idx) [
  | none ↦ ok s
  | some page_idx ↦ if num_elements == 0 then fault else elim (get_elem? s.pages page_idx) [
    | none ↦ fault
    | some val ↦ elim (get_elem? s.threads idx) [
      | none ↦ ok s
      | some progress ↦ ok (act idx page_idx val progress s)
    ]
  ]
]

unfoldable pub kernel_random_access : List ℕ → ℕ → List ℕ → Launch → Run Launch
unfolding step
kernel_random_access indices num_elements [] s = ok s
kernel_random_access indices num_elements (idx ∷ schedule) s = do
  s₁ ← step indices num_elements idx s
  kernel_random_access indices num_elements schedule s₁
