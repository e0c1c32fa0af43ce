-- ===== src/Tests/Nulls.antt =====
-- A manager that has given out no page.
use gpu_vmm.Prelude.{◌≡◌, refl, false, []}
use gpu_vmm.Vm.State.{Vm}
use gpu_vmm.Vm.Allocate.{allocate}
use gpu_vmm.Vm.Allocate.First.{allocate_first}
use gpu_vmm.Tests.Managers.{world, on_cpu}

-- Nothing is allocated yet.
abbrev unused : Vm
unused = record on_cpu { next_vpn = 0; vaddr_to_vpn_map = [] }

allocate_first_example : (allocate world unused 16 false).1 ≡ 0
allocate_first_example = allocate_first world unused 16 false refl
