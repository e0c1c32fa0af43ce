-- ===== src/Tests/Doubles.antt =====
-- A manager with three free CPU frames.
use gpu_vmm.Prelude.{
  ℕ, zero, suc, ◌≡◌, refl, true, false, none, some, [], ◌∷◌, arith, Returns, ◌>>=◌, if◌then◌else◌,
}
use gpu_vmm.Prelude.Assoc.{find, insert, modify}
use gpu_vmm.Common.Address.{vaddr_to_vpn, align_to_page, vpn_to_vaddr}
use gpu_vmm.PageTable.{lookup_entry, allocate_vpn_range, set_cpu_resident, update_access_time}
use gpu_vmm.PageTable.Range.{in_range}
use gpu_vmm.PageAllocator.{PageAllocator, cpu_frame, gpu_frame, allocate_cpu_page}
use gpu_vmm.PageAllocator.Bitmap.{is_set, used, first_free}
use gpu_vmm.PageAllocator.Invariant
use gpu_vmm.Vm.State.{Vm}
use gpu_vmm.Vm.Access.{read_from_vaddr, write_to_vaddr}
use gpu_vmm.Vm.Allocate.{pages_of, allocate, free}
use gpu_vmm.Vm.Ownership.Table.{cpu_of, gpu_of}
use gpu_vmm.Vm.Ownership.Valid.{IsValid}
use gpu_vmm.Vm.Ownership.Later.{allocate_twice, free_takes_later, allocate_nothing}
use gpu_vmm.Vm.Session.Memory.{read-write_offset}
use gpu_vmm.Tests.Pools.{two_frames, half_used}
use gpu_vmm.Tests.Caches.{cache-IsValid}
use gpu_vmm.Tests.Sessions.{has_frame}
use gpu_vmm.Tests.Managers.{
  world, table, manager, on_cpu, on_cpu-IsValid, one_owner, no_owner, none_set, cpu_of_table,
  gpu_of_table, page_unused, page_allocated,
}

abbrev pub roomy : PageAllocator
roomy = record half_used {
  config = record two_frames { cpu_page_pool_size = 64 };
  cpu_page_bitmap = true ∷ false ∷ false ∷ false ∷ [];
}

roomy-IsValid : Invariant.IsValid roomy
unfolding used
roomy-IsValid = record {
  page_pos = omega arith;
  cpu_pool_pos = omega arith;
  cpu_pool_fits = omega arith;
  gpu_pool_fits = omega arith;
  cpu_frames = refl;
  gpu_frames = refl;
  cpu_counted = refl;
  gpu_counted = refl;
}

pub first_of_four : (i : ℕ) → is_set roomy.cpu_page_bitmap i ≡ true → i ≡ 0
unfolding is_set
first_of_four zero h = refl
first_of_four (suc zero) h = ground arith
first_of_four (suc (suc zero)) h = ground arith
first_of_four (suc (suc (suc zero))) h = ground arith
first_of_four (suc (suc (suc (suc i)))) h = ground arith

abbrev spacious : Vm
spacious = manager roomy 0

spacious-IsValid : IsValid spacious
unfolding cpu_frame is_set
spacious-IsValid = record {
  exclusive = record {
    valid = roomy-IsValid;
    cpu =
        one_owner (cpu_frame roomy) (is_set roomy.cpu_page_bitmap) (cpu_of (table 0)) refl
          first_of_four (cpu_of_table 0);
    gpu =
        no_owner (gpu_frame roomy) (is_set roomy.gpu_page_bitmap) (gpu_of (table 0)) none_set
          (λ v. ground (arith, gpu_of_table 0 v));
  };
  tlb = cache-IsValid;
  policy = (_, refl);
  page_size = refl;
  unused = page_unused 0;
  allocated = page_allocated;
}

-- The addresses of pages of 20 bytes, then of 5.
two_addresses :
    ((allocate_twice world spacious 20 5 false).1 ≡ 96)
    × ((allocate_twice world spacious 20 5 false).2 ≡ 128)
unfolding allocate allocate_vpn_range find allocate_cpu_page first_free vpn_to_vaddr align_to_page
    insert update_access_time modify set_cpu_resident
two_addresses = (refl, refl)

free_takes_later_example :
    Returns
      (free
        (allocate_twice world spacious 20 5 false).0
        (allocate_twice world spacious 20 5 false).1)
      λ u.
        (j : ℕ)
        → lookup_entry u.page_table j ≡ (
            if in_range 6 3 j
            then none
            else lookup_entry (allocate_twice world spacious 20 5 false).0.page_table j)
unfolding pages_of align_to_page
free_takes_later_example =
    free_takes_later world spacious 20 5 false 2 1 spacious-IsValid refl refl (omega arith)
      (omega arith) (omega arith) (omega (arith, two_addresses.0)) (omega (arith, two_addresses.1))

nothing_given :
    ((allocate_twice world spacious 0 5 false).1 ≡ 96)
    × ((allocate_twice world spacious 0 5 false).2 ≡ 96)
unfolding allocate allocate_vpn_range find allocate_cpu_page first_free vpn_to_vaddr align_to_page
nothing_given = (refl, refl)

allocate_nothing_example :
    (allocate_twice world spacious 0 5 false).1 ≡ (allocate_twice world spacious 0 5 false).2
unfolding pages_of align_to_page
allocate_nothing_example =
    allocate_nothing world spacious 0 5 false spacious-IsValid refl (omega arith)
      (omega (arith, nothing_given.0)) (omega (arith, nothing_given.1))

same_page : vaddr_to_vpn 90 16 ≡ vaddr_to_vpn 80 16
unfolding vaddr_to_vpn
same_page = refl

read-write_offset_example :
    Returns
      (do u ← write_to_vaddr world on_cpu 80 (some (7 ∷ 8 ∷ [])); read_from_vaddr world u 90 true 2)
      λ q. q.1 ≡ some (7 ∷ 8 ∷ [])
read-write_offset_example =
    read-write_offset world on_cpu 80 90 (7 ∷ 8 ∷ []) on_cpu-IsValid (omega arith) (omega arith)
      same_page has_frame (omega arith)
