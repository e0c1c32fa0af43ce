-- ===== src/DeviceMapped.antt =====
-- The template `DeviceMapped` of src/vm/VirtualMemoryManager.h. `manager` is the one that `instance()` returns.
-- Copying is deleted; `get` and `data` are the field `ptr`, and `size` is the field `count`.
pub mod Raii
use gpu_vmm.Prelude.{
  ℕ, ◌+◌, ◌*◌, ◌%◌, Bool, Option, none, some, if◌then◌else◌, ◌==◌, ltb, Run, ok, fault, ◌>>=◌,
}
use gpu_vmm.Common.Words.{u64_mod}
use gpu_vmm.Vm.State.{World}
use gpu_vmm.Vm.Lifecycle.{Manager, allocate, free}

-- `ptr` is 0 for null.
pub record DeviceMapped : Type 0 where
  pub ptr : ℕ
  pub count : ℕ

-- The constructor, for a type of `size` bytes; `none` is an object whose constructor threw.
unfoldable pub construct : World → Manager → ℕ → ℕ → Bool → Manager × Option DeviceMapped
unfolding allocate
construct w manager size count gpu_resident =
    let r = allocate w manager (count * size % u64_mod) gpu_resident in
    if r.1 == 0 then (r.0, none) else (r.0, some (record { ptr = r.1; count = count }))

-- The destructor.
unfoldable pub destroy : Manager → DeviceMapped → Run Manager
unfolding free
destroy manager d = if d.ptr == 0 then ok manager else free manager d.ptr

-- The move constructor: the new object and what is left of the old one.
unfoldable pub move : DeviceMapped → DeviceMapped × DeviceMapped
move other = (record { ptr = other.ptr; count = other.count }, record { ptr = 0; count = 0 })

-- `operator[]`: the address of the element; `assert` stops the program past the end.
unfoldable pub element : DeviceMapped → ℕ → ℕ → Run ℕ
element d size idx = if ltb idx d.count then ok (d.ptr + idx * size) else fault
