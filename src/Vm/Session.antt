-- ===== src/Vm/Session.antt =====
-- A client of the manager: a list of calls of the public operations, made one after another. A call holds
-- `manager_mutex_` from beginning to end, so the calls of several threads come in some such order.
pub mod Progress
pub mod Valid
pub mod Memory
pub mod Start
use gpu_vmm.Prelude.{
  ℕ, Bool, true, false, ◌||◌, some, List, [], ◌∷◌, if◌then◌else◌, leb, ◌==◌, length, Run, ok, ◌>>=◌,
}
use gpu_vmm.Common.Address.{vaddr_to_vpn}
use gpu_vmm.Vm.State.{World, Vm}
use gpu_vmm.Vm.Fault.{map_to_cpu, map_to_gpu, prefetch_to_gpu}
use gpu_vmm.Vm.Access.{touch_page, read_from_vaddr, write_to_vaddr}
use gpu_vmm.Vm.Allocate.{allocate, free}

-- A call with its arguments. A read has a buffer of the size given, and a write one with these bytes.
pub data Command : Type 0 where
  allocation : ℕ → Bool → Command
  release to_cpu to_gpu prefetch : ℕ → Command
  touch : ℕ → Bool → Command
  reading : ℕ → ℕ → Command
  writing : ℕ → List ℕ → Command

unfoldable pub execute : World → Vm → Command → Run Vm
unfolding allocate free map_to_cpu map_to_gpu prefetch_to_gpu touch_page read_from_vaddr
    write_to_vaddr
execute w s (allocation bytes resident) = ok (allocate w s bytes resident).0
execute w s (release vaddr) = free s vaddr
execute w s (to_cpu vaddr) = map_to_cpu w s vaddr
execute w s (to_gpu vaddr) = map_to_gpu w s vaddr
execute w s (prefetch vaddr) = prefetch_to_gpu w s vaddr
execute w s (touch vaddr is_write) = touch_page w s vaddr is_write
execute w s (reading vaddr bytes) = do r ← read_from_vaddr w s vaddr true bytes; ok r.0
execute w s (writing vaddr bytes) = write_to_vaddr w s vaddr (some bytes)

unfoldable pub run : World → List Command → Vm → Run Vm
unfolding execute
run w [] s = ok s
run w (c ∷ cs) s = do s₁ ← execute w s c; run w cs s₁

-- Reads and writes of at most a page.
unfoldable pub fits : ℕ → Command → Bool
fits page_size (reading vaddr bytes) = leb bytes page_size
fits page_size (writing vaddr bytes) = leb (length bytes) page_size
fits page_size _ = true

unfoldable pub all_fit : ℕ → List Command → Bool
unfolding fits
all_fit page_size [] = true
all_fit page_size (c ∷ cs) = if fits page_size c then all_fit page_size cs else false

-- The command writes to page `vpn`.
unfoldable pub writes_to : ℕ → ℕ → Command → Bool
writes_to page_size vpn (writing vaddr bytes) = vaddr_to_vpn vaddr page_size == vpn
writes_to page_size vpn _ = false

unfoldable pub any_writes_to : ℕ → ℕ → List Command → Bool
unfolding writes_to
any_writes_to page_size vpn [] = false
any_writes_to page_size vpn (c ∷ cs) = writes_to page_size vpn c || any_writes_to page_size vpn cs
