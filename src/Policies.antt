-- ===== src/Policies.antt =====
-- src/vm/Policies.h and src/vm/Policies.cpp: the abstract class `ReplacementPolicy`, as a data type with a
-- constructor for each subclass, and its virtual functions by dispatch.
pub mod Lru
pub mod Clock
use gpu_vmm.Prelude.{ℕ, Run, ok, ◌>>=◌}
use Lru.{LruPolicy}
use Clock.{ClockPolicy}
use Lru
use Clock

pub data ReplacementPolicy : Type 0 where
  lru : LruPolicy → ReplacementPolicy
  clock : ClockPolicy → ReplacementPolicy

unfoldable pub on_page_access : ReplacementPolicy → ℕ → ReplacementPolicy
on_page_access (lru p) vpn = lru (Lru.on_page_access p vpn)
on_page_access (clock p) vpn = clock (Clock.on_page_access p vpn)

unfoldable pub on_page_allocated : ReplacementPolicy → ℕ → ReplacementPolicy
on_page_allocated (lru p) vpn = lru (Lru.on_page_allocated p vpn)
on_page_allocated (clock p) vpn = clock (Clock.on_page_allocated p vpn)

unfoldable pub on_page_freed : ReplacementPolicy → ℕ → ReplacementPolicy
on_page_freed (lru p) vpn = lru (Lru.on_page_freed p vpn)
on_page_freed (clock p) vpn = clock (Clock.on_page_freed p vpn)

unfoldable pub select_victim : ReplacementPolicy → Run (ReplacementPolicy × ℕ)
select_victim (lru p) = let r = Lru.select_victim p in ok (lru r.0, r.1)
select_victim (clock p) = do (q, victim) ← Clock.select_victim p; ok (clock q, victim)

unfoldable pub reset : ReplacementPolicy → ReplacementPolicy
reset (lru p) = lru (Lru.reset p)
reset (clock p) = clock (Clock.reset p)
