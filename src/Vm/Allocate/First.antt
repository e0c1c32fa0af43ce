-- ===== src/Vm/Allocate/First.antt =====
-- The address that the first allocation returns.
use gpu_vmm.Prelude.{
  ℕ, zero, suc, ◌+◌, ◌≡◌, refl, ◌∙◌, Bool, List, [], ◌∷◌, ◌++◌, arith, if◌then◌else◌, ◌==◌,
  Bool-cases, Option-cases, inl, inr,
}
use gpu_vmm.Common.Address.{vpn_to_vaddr}
use gpu_vmm.PageTable.{allocate_vpn_range}
use gpu_vmm.PageAllocator.{allocate_cpu_page, allocate_gpu_page}
use gpu_vmm.Common.Words.{u64_add}
use gpu_vmm.Vm.State.{World, Vm, charge_to_gpu}
use gpu_vmm.Vm.Allocate.{
  pages_of, cpu_loop, gpu_loop, give_cpu_page, give_gpu_page, publish, allocate,
}

pub cpu_loop_next :
    (w : World) (left i start : ℕ) (ps : List ℕ) (s : Vm)
    → (cpu_loop w left i start ps s).0.next_vpn ≡ s.next_vpn
unfolding cpu_loop give_cpu_page
cpu_loop_next w zero i start ps s = refl
cpu_loop_next w (suc left) i start ps s =
    let r = allocate_cpu_page s.allocator in
    let u = give_cpu_page w (record s { allocator = r.0 }) (u64_add start i) r.1 in
    elim (Bool-cases (r.1 == 0)) [
      | inl null ↦ rw (null, cpu_loop)
      | inr got ↦ rw (got, cpu_loop) (cpu_loop_next w left (i + 1) start (ps ++ r.1 ∷ []) u)
    ]

give_gpu_page_next :
    (w : World) (s : Vm) (vpn p : ℕ) → (give_gpu_page w s vpn p).next_vpn ≡ s.next_vpn
unfolding give_gpu_page charge_to_gpu
give_gpu_page_next w s vpn p = elim (Bool-cases ((allocate_gpu_page s.allocator).1 == 0)) [
  | inl null ↦ rw (null, give_gpu_page)
  | inr got ↦ rw (got, give_gpu_page)
]

pub gpu_loop_next :
    (w : World) (ps : List ℕ) (i start : ℕ) (s : Vm)
    → (gpu_loop w ps i start s).next_vpn ≡ s.next_vpn
unfolding gpu_loop
gpu_loop_next w [] i start s = refl
gpu_loop_next w (p ∷ ps) i start s =
    gpu_loop_next w ps (i + 1) start (give_gpu_page w s (u64_add start i) p)
    ∙ give_gpu_page_next w s (u64_add start i) p

publish_zero : (s : Vm) (n : ℕ) → s.next_vpn ≡ 0 → (publish s n).1 ≡ 0
unfolding publish vpn_to_vaddr
publish_zero s n h = rw h (omega arith)

-- On a manager that has given out no page number, `allocate` of any size returns 0, the null pointer, whether it
-- succeeds or fails.
pub allocate_first :
    (w : World) (s : Vm) (bytes : ℕ) (prefetch : Bool)
    → s.next_vpn ≡ 0
    → (allocate w s bytes prefetch).1 ≡ 0
unfolding allocate
allocate_first w s bytes prefetch h =
    let n = pages_of bytes s.config.page_size in
    let r = allocate_vpn_range s.page_table s.next_vpn n in
    let s₁ = record s { page_table = r.0 } in
    let c = cpu_loop w n 0 s.next_vpn [] s₁ in
    elim (Bool-cases r.1) [
      | inr refused ↦ rw (refused, allocate)
      | inl accepted ↦ elim (Option-cases c.1) [
        | inl none_left ↦ rw (accepted, none_left, allocate)
        | inr (ps, got) ↦
            let u = (if prefetch then gpu_loop w ps 0 s.next_vpn c.0 else c.0) in
            let next : u.next_vpn ≡ 0 = elim (Bool-cases prefetch) [
              | inl on ↦
                  rw on
                    (gpu_loop_next w ps 0 s.next_vpn c.0 ∙ cpu_loop_next w n 0 s.next_vpn [] s₁ ∙ h)
              | inr off ↦ rw off (cpu_loop_next w n 0 s.next_vpn [] s₁ ∙ h)
            ] in
            rw (accepted, got, allocate) (publish_zero u n next)
      ]
    ]
