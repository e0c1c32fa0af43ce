-- ===== src/Policies/Lru.antt =====
-- `LRUPolicy`. The front of `lru_queue_` is the head of the list.
pub mod Fifo
use gpu_vmm.Prelude.{
  ℕ, zero, suc, ◌+◌, ◌≡◌, Bool, true, false, List, [], ◌∷◌, ◌++◌, if◌then◌else◌, ltb, length,
}
use gpu_vmm.Prelude.Assoc.{add, remove}

pub record LruPolicy : Type 0 where
  pub lru_queue : List ℕ
  pub active_pages : List ℕ
  pub max_pages : ℕ

unfoldable pub create : ℕ → LruPolicy
create max_pages = record { lru_queue = []; active_pages = []; max_pages = max_pages }

-- The page is searched for and nothing is done with it.
unfoldable pub on_page_access : LruPolicy → ℕ → LruPolicy
on_page_access p vpn = p

-- `while (lru_queue_.size() > max_pages_)` drops the oldest page.
unfoldable pub trim : ℕ → List ℕ → List ℕ → List ℕ × List ℕ
trim max_pages [] active = ([], active)
trim max_pages (oldest ∷ queue) active =
    let rest = trim max_pages queue (remove oldest active) in
    if ltb max_pages (length (oldest ∷ queue)) then rest else (oldest ∷ queue, active)

unfoldable pub on_page_allocated : LruPolicy → ℕ → LruPolicy
unfolding trim
on_page_allocated p vpn =
    let r = trim p.max_pages (p.lru_queue ++ vpn ∷ []) (add vpn p.active_pages) in
    record p { lru_queue = r.0; active_pages = r.1 }

unfoldable pub on_page_freed : LruPolicy → ℕ → LruPolicy
on_page_freed p vpn = record p { active_pages = remove vpn p.active_pages }

unfoldable pub select_victim : LruPolicy → LruPolicy × ℕ
select_victim p = elim p.lru_queue [
  | [] ↦ (p, 0)
  | victim ∷ queue ↦
      (record p { lru_queue = queue; active_pages = remove victim p.active_pages }, victim)
]

unfoldable pub reset : LruPolicy → LruPolicy
reset p = record p { lru_queue = []; active_pages = [] }
