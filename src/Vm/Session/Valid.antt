-- ===== src/Vm/Session/Valid.antt =====
-- The manager after a list of calls.
use gpu_vmm.Prelude.{
  ℕ, ◌+◌, ◌*◌, ◌≤◌, ◌<◌, ◌≡◌, ◌⊎◌, refl, sym, ◌∙◌, ap, Bool, true, false, none, List, [], ◌∷◌,
  arith, inl, inr, length, Returns, ok, ◌>>=◌,
}
use gpu_vmm.Common.Words.{u32_mod, u64_mod}
use gpu_vmm.PageTable.{lookup_entry}
use gpu_vmm.PageTable.Range.{in_range}
use gpu_vmm.Vm.State.{World, Vm}
use gpu_vmm.Vm.Fault.{prefetch_to_gpu}
use gpu_vmm.Vm.Allocate.{pages_of, allocate}
use gpu_vmm.Vm.Ownership.Table.{cpu_of, cpu_address_of}
use gpu_vmm.Vm.Ownership.Valid.{IsValid}
use gpu_vmm.Vm.Ownership.Mappings.{map_to_cpu-Keeps, map_to_gpu-Keeps}
use gpu_vmm.Vm.Ownership.Access.{read_from_vaddr-Keeps}
use gpu_vmm.Vm.Ownership.Touch.{touch_page-Keeps}
use gpu_vmm.Vm.Ownership.Allocate.{allocate_cases}
use gpu_vmm.Vm.Ownership.Free.{free-Frees}
use gpu_vmm.Vm.Ownership.Write.{write_to_vaddr-Writes}
use gpu_vmm.Vm.Session.{
  Command, allocation, release, to_cpu, to_gpu, prefetch, touch, reading, writing, execute, run,
  fits, all_fit, writes_to, any_writes_to,
}
use gpu_vmm.Vm.Session.Progress.{
  Remains, Progress, Progress-refl, Progress-trans, Keeps-Progress, cpu_of-below,
}

-- Every page below `next_vpn` has the entry that it had, or none.
same_or_gone-Remains :
    (s u : Vm) (v : ℕ)
    → u.memory ≡ s.memory
    → (lookup_entry u.page_table v ≡ none)
      ⊎ (lookup_entry u.page_table v ≡ lookup_entry s.page_table v)
    → Remains s u v
unfolding cpu_of
same_or_gone-Remains s u v memory e = elim e [
  | inl gone ↦ inl gone
  | inr same ↦ inr (ap cpu_address_of same, λ o lt. rw memory)
]

allocation-Progress :
    (w : World) (s : Vm) (bytes : ℕ) (resident : Bool) (written : ℕ → Bool)
    → IsValid s
    → s.next_vpn + u32_mod ≤ u64_mod
    → Returns (execute w s (allocation bytes resident)) (Progress u32_mod written s)
unfolding execute pages_of
allocation-Progress w s bytes resident written v room =
    let n = pages_of bytes s.config.page_size in
    let small : n < u32_mod = omega arith in
    let u = (allocate w s bytes resident).0 in
    (
      _,
      refl,
      elim (allocate_cases w s bytes resident v (omega arith)) [
        | inl done ↦
            let other : (j : ℕ) → j < s.next_vpn → in_range s.next_vpn n j ≡ false =
              λ j below. ground arith in
            record {
              valid = done.valid;
              config = done.config;
              growth = omega (arith, done.next_vpn);
              bound = omega (arith, done.next_vpn);
              absent = λ j below e. done.others j (other j below) ∙ e;
              remains = λ j unwritten held.
                  same_or_gone-Remains s u j done.memory
                    (inr (done.others j (other j (cpu_of-below s j v held))));
            }
        | inr refused ↦ record {
          valid = refused.valid;
          config = refused.fixed.config;
          growth = omega (arith, refused.fixed.next_vpn);
          bound = omega (arith, refused.fixed.next_vpn);
          absent = λ j below e. refused.entries j ∙ e;
          remains = λ j unwritten held.
              same_or_gone-Remains s u j refused.fixed.memory (inr (refused.entries j));
        }
      ],
    )

free-Progress :
    (w : World) (s : Vm) (vaddr : ℕ) (written : ℕ → Bool)
    → IsValid s
    → s.next_vpn + u32_mod ≤ u64_mod
    → Returns (execute w s (release vaddr)) (Progress u32_mod written s)
unfolding execute
free-Progress w s vaddr written v room =
    let (u, run, f) = free-Frees s vaddr v room in
    (
      u,
      run,
      (record {
        valid = f.valid;
        config = f.config;
        growth = omega (arith, f.next_vpn);
        bound = omega (arith, f.next_vpn);
        absent = λ j below e. elim (f.entries j) [ inl gone ↦ gone | inr same ↦ same ∙ e ];
        remains = λ j unwritten held. same_or_gone-Remains s u j f.memory (f.entries j);
      }),
    )

write-Progress :
    (w : World) (s : Vm) (vaddr : ℕ) (bytes : List ℕ)
    → IsValid s
    → length bytes ≤ s.config.page_size
    → Returns
        (execute w s (writing vaddr bytes))
        (Progress u32_mod (λ v. writes_to s.config.page_size v (writing vaddr bytes)) s)
unfolding execute writes_to
write-Progress w s vaddr bytes v le =
    let (u, run, k) = write_to_vaddr-Writes w s vaddr bytes v le in
    (
      u,
      run,
      (record {
        valid = k.valid;
        config = k.config;
        growth = omega (arith, k.next_vpn);
        bound = omega (arith, k.next_vpn);
        absent = λ j below e. k.extends.absent j e;
        remains = λ j unwritten held.
            inr (k.extends.cpu j held, λ o lt. k.spares j o (ground arith) held lt);
      }),
    )

pub execute-Progress :
    (w : World) (s : Vm) (c : Command)
    → IsValid s
    → s.next_vpn + u32_mod ≤ u64_mod
    → fits s.config.page_size c ≡ true
    → Returns (execute w s c) (Progress u32_mod (λ v. writes_to s.config.page_size v c) s)
unfolding execute fits writes_to prefetch_to_gpu
execute-Progress w s (allocation bytes resident) v room h =
    allocation-Progress w s bytes resident _ v room
execute-Progress w s (release vaddr) v room h = free-Progress w s vaddr _ v room
execute-Progress w s (to_cpu vaddr) v room h =
    let (u, run, k) = map_to_cpu-Keeps w s vaddr v in (u, run, Keeps-Progress s u u32_mod _ k)
execute-Progress w s (to_gpu vaddr) v room h =
    let (u, run, k) = map_to_gpu-Keeps w s vaddr v in (u, run, Keeps-Progress s u u32_mod _ k)
execute-Progress w s (prefetch vaddr) v room h =
    let (u, run, k) = map_to_gpu-Keeps w s vaddr v in (u, run, Keeps-Progress s u u32_mod _ k)
execute-Progress w s (touch vaddr is_write) v room h =
    let (u, run, k) = touch_page-Keeps w s vaddr is_write v in
    (u, run, Keeps-Progress s u u32_mod _ k)
execute-Progress w s (reading vaddr bytes) v room h =
    let (r, run, k) = read_from_vaddr-Keeps w s vaddr bytes true v (ground arith) in
    (r.0, ap (λ m. m >>= λ q. ok q.0) run, Keeps-Progress s r.0 u32_mod _ k)
execute-Progress w s (writing vaddr bytes) v room h =
    write-Progress w s vaddr bytes v (ground arith)

-- On a valid manager any list of public calls, in any order and with any addresses, whose reads and writes are of
-- at most a page, and with enough page numbers left for each call to use up 2 ^ 32, ends without a fault. The
-- manager is valid afterwards; the page numbers given out do not decrease; and every page that had a CPU
-- frame and is not written to has lost its entry or has the same frame with the same bytes.
pub run-Progress :
    (w : World) (cs : List Command) (s : Vm)
    → IsValid s
    → s.next_vpn + length cs * u32_mod ≤ u64_mod
    → all_fit s.config.page_size cs ≡ true
    → Returns
        (run w cs s)
        (Progress (length cs * u32_mod) (λ v. any_writes_to s.config.page_size v cs) s)
unfolding run all_fit any_writes_to
run-Progress w [] s v room h = (s, refl, Progress-refl s _ _ v)
run-Progress w (c ∷ cs) s v room h =
    let n = length cs * u32_mod in
    let total : u32_mod + n ≡ length (c ∷ cs) * u32_mod = omega arith in
    let page = s.config.page_size in
    let (u, first, k) = execute-Progress w s c v (omega arith) (ground arith) in
    let (r, rest, l) =
      run-Progress w cs u k.valid (omega (arith, k.bound)) (rw k.config (ground arith)) in
    (
      r,
      ap (λ m. m >>= run w cs) first ∙ rest,
      rw (sym total) (
          Progress-trans u32_mod n (λ j. writes_to page j c) (λ j. any_writes_to page j cs) _
            (λ j. refl) v k (rw k.config at l)),
    )
