-- ===== src/Tests/Sessions.antt =====
-- Lists of calls on the managers with one page, and on a new one.
use gpu_vmm.Prelude.{
  ℕ, ◌*◌, ◌≡◌, ◌≢◌, ◌⊎◌, refl, true, false, none, some, List, [], ◌∷◌, arith, length, Returns,
  ◌>>=◌,
}
use gpu_vmm.Prelude.Assoc.{find, insert, modify}
use gpu_vmm.PageAllocator.{allocate_cpu_page, allocate_gpu_page, cpu_frame}
use gpu_vmm.PageAllocator.Bitmap.{first_free}
use gpu_vmm.Common.Words.{u32_mod}
use gpu_vmm.Common.Address.{vpn_to_vaddr, align_to_page, vaddr_to_vpn}
use gpu_vmm.Common.Counters.{reset}
use gpu_vmm.PageTable.{
  allocate_vpn_range, set_cpu_resident, update_access_time, allocate_vpn_range, lookup_entry,
}
use gpu_vmm.Vm.State.{Vm}
use gpu_vmm.Vm.Access.{read_from_vaddr, write_to_vaddr}
use gpu_vmm.Vm.Allocate.{pages_of, allocate, free}
use gpu_vmm.Vm.Lifecycle.{Process, running, stopped, initialize, allocator_config}
use gpu_vmm.Vm.Ownership.Table.{cpu_of}
use gpu_vmm.Vm.Ownership.Valid.{IsValid}
use gpu_vmm.Vm.Ownership.Allocate.{Allocates, Refuses, allocate_cases}
use gpu_vmm.Vm.Ownership.Free.{Frees, free-Frees}
use gpu_vmm.Vm.Ownership.Write.{Writes, write_to_vaddr-Writes}
use gpu_vmm.Vm.Ownership.Return.{free-allocate}
use gpu_vmm.Vm.Session.{
  Command, allocation, release, to_cpu, to_gpu, prefetch, touch, reading, writing, run, fits,
  all_fit, writes_to, any_writes_to,
}
use gpu_vmm.Vm.Session.Progress.{Progress}
use gpu_vmm.Vm.Session.Valid.{run-Progress}
use gpu_vmm.Vm.Session.Memory.{read-run-write}
use gpu_vmm.Vm.Session.Start.{IsSound, initialize-run}
use gpu_vmm.Tests.Managers.{
  world, sixteen_byte_pages, on_cpu, on_cpu-IsValid, on_both, on_both-IsValid, cpu_of_table,
}

-- Every kind of call; the write is to page 6.
abbrev calls : List Command
calls =
    allocation 16 true
    ∷ to_gpu 80
    ∷ touch 80 true
    ∷ writing 96 (1 ∷ [])
    ∷ prefetch 96
    ∷ reading 80 3
    ∷ to_cpu 80
    ∷ release 96
    ∷ []

calls_fit : all_fit 16 calls ≡ true
unfolding all_fit fits
calls_fit = refl

calls_elsewhere : any_writes_to 16 (vaddr_to_vpn 80 16) calls ≡ false
unfolding any_writes_to writes_to vaddr_to_vpn
calls_elsewhere = refl

pub has_frame : cpu_of on_cpu.page_table (vaddr_to_vpn 80 16) ≢ 0
unfolding vaddr_to_vpn
has_frame = ground (arith, cpu_of_table 0 5)

read-run-write_example :
    Returns
      (do u ← write_to_vaddr world on_cpu 80 (some (7 ∷ 8 ∷ 9 ∷ [])); run world calls u)
      λ r.
        (lookup_entry r.page_table (vaddr_to_vpn 80 16) ≡ none)
        ⊎ (Returns (read_from_vaddr world r 80 true 3) λ q. q.1 ≡ some (7 ∷ 8 ∷ 9 ∷ []))
read-run-write_example =
    read-run-write world on_cpu 80 (7 ∷ 8 ∷ 9 ∷ []) calls on_cpu-IsValid (omega arith) has_frame
      (omega arith) (omega arith) calls_fit calls_elsewhere

run-Progress_example :
    Returns
      (run world calls on_both)
      (Progress (length calls * u32_mod) (λ v. any_writes_to 16 v calls) on_both)
run-Progress_example = run-Progress world calls on_both on_both-IsValid (omega arith) calls_fit

abbrev heap : ℕ → ℕ
heap bytes = 4096

abbrev process : Process
process = record { counters = reset; memory = λ a. 0; readings = 0 }

sixteen_byte_pages-IsSound : IsSound heap sixteen_byte_pages
unfolding allocator_config
sixteen_byte_pages-IsSound = record {
  fits = record { page_pos = omega arith; block_fits = omega arith; gpu_fits = omega arith };
  block = omega arith;
  policy = refl;
  ways = omega arith;
  sets = omega arith;
}

initialize-run_example :
    Returns
      (initialize heap process (stopped process.counters) sixteen_byte_pages)
      λ m. (s : Vm) × (m ≡ running s) × Returns (run world calls s) IsValid
initialize-run_example =
    initialize-run heap process sixteen_byte_pages world calls sixteen_byte_pages-IsSound
      (omega arith) calls_fit

one_page : pages_of 16 16 ≡ 1
unfolding pages_of align_to_page
one_page = refl

allocate_cases_example :
    Allocates on_cpu (pages_of 16 16) (allocate world on_cpu 16 true)
    ⊎ Refuses on_cpu (allocate world on_cpu 16 true)
allocate_cases_example =
    allocate_cases world on_cpu 16 true on_cpu-IsValid (rw one_page (omega arith))

given : (allocate world on_cpu 16 true).1 ≢ 0
unfolding allocate align_to_page vpn_to_vaddr find insert modify allocate_vpn_range first_free
    allocate_cpu_page allocate_gpu_page cpu_frame set_cpu_resident update_access_time
given h = let e : 96 ≡ 0 = h in ground (arith, e)

free-allocate_example :
    Returns
      (free (allocate world on_cpu 16 true).0 (allocate world on_cpu 16 true).1)
      λ u. IsValid u × ((v : ℕ) → lookup_entry u.page_table v ≡ lookup_entry on_cpu.page_table v)
free-allocate_example = free-allocate world on_cpu 16 true on_cpu-IsValid (omega arith) given

free-Frees_example : Returns (free on_both 80) (Frees on_both)
free-Frees_example = free-Frees on_both 80 on_both-IsValid (omega arith)

write_to_vaddr-Writes_example :
    Returns
      (write_to_vaddr world on_cpu 85 (some (7 ∷ 8 ∷ [])))
      (Writes (vaddr_to_vpn 85 16) on_cpu)
write_to_vaddr-Writes_example =
    write_to_vaddr-Writes world on_cpu 85 (7 ∷ 8 ∷ []) on_cpu-IsValid (omega arith)
