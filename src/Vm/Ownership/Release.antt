-- ===== src/Vm/Ownership/Release.antt =====
-- Handing the frames of a run of pages back, while the page table still has their addresses.
use mathlib.Core.Option
use gpu_vmm.Prelude.{
  ℕ, zero, suc, ◌+◌, ◌≡◌, refl, ◌∙◌, ap, true, List, [], ◌∷◌, ◌++◌, arith, length, if◌then◌else◌,
  ◌==◌, Bool-cases, Option-cases, inl, inr,
}
use gpu_vmm.Prelude.Assoc.{erase, find-erase}
use gpu_vmm.PageTable.{PageTable, PageTableEntry, lookup_entry, write}
use gpu_vmm.PageTable.Residency.{lookup-write}
use gpu_vmm.PageTable.Range.{in_range}
use gpu_vmm.PageAllocator.{PageAllocator, deallocate_cpu_page, deallocate_gpu_page}
use gpu_vmm.Vm.Allocate.{release_all}
use gpu_vmm.Vm.Ownership.Table.{cpu_of, gpu_of, cpu_address_of, gpu_of-write_same}
use gpu_vmm.Vm.Ownership.Frames.{Exclusive}
use gpu_vmm.Vm.Ownership.Transfer.{
  deallocate_cpu-Exclusive, deallocate_gpu-Exclusive, same-Exclusive,
}

-- The CPU addresses of the `n` pages from `vpn` on.
unfoldable pub frames : PageTable → ℕ → ℕ → List ℕ
frames t vpn zero = []
frames t vpn (suc n) = cpu_of t vpn ∷ frames t (vpn + 1) n

pub frames_congr :
    (t u : PageTable) (vpn n : ℕ)
    → ((v : ℕ) → in_range vpn n v ≡ true → cpu_of u v ≡ cpu_of t v)
    → frames u vpn n ≡ frames t vpn n
unfolding frames
frames_congr t u vpn zero same = refl
frames_congr t u vpn (suc n) same =
    let here : cpu_of u vpn ≡ cpu_of t vpn = same vpn (ground arith) in
    rw here (ap (◌∷◌ (cpu_of t vpn)) (frames_congr t u (vpn + 1) n (λ v h. same v (ground arith))))

pub length-frames : (t : PageTable) (vpn n : ℕ) → length (frames t vpn n) ≡ n
unfolding frames
length-frames t vpn zero = refl
length-frames t vpn (suc n) = ap suc (length-frames t (vpn + 1) n)

pub frames_snoc :
    (t : PageTable) (vpn n : ℕ) → frames t vpn (n + 1) ≡ frames t vpn n ++ cpu_of t (vpn + n) ∷ []
unfolding frames
frames_snoc t vpn zero = let e : vpn + 0 ≡ vpn = omega arith in rw e
frames_snoc t vpn (suc n) =
    let e : vpn + suc n ≡ vpn + 1 + n = omega arith in
    let k : suc n + 1 ≡ suc (n + 1) = omega arith in
    rw (e, k) (ap (◌∷◌ (cpu_of t vpn)) (frames_snoc t (vpn + 1) n))

unfoldable pub without : PageTable → ℕ → PageTable
without t vpn = record t { entries = erase vpn t.entries }

pub cpu_of-without :
    (t : PageTable) (vpn v : ℕ) → cpu_of (without t vpn) v ≡ (if vpn == v then 0 else cpu_of t v)
unfolding cpu_of without lookup_entry
cpu_of-without t vpn v = ground (arith, find-erase vpn v t.entries)

pub gpu_of-without :
    (t : PageTable) (vpn v : ℕ) → gpu_of (without t vpn) v ≡ (if vpn == v then 0 else gpu_of t v)
unfolding gpu_of without lookup_entry
gpu_of-without t vpn v = ground (arith, find-erase vpn v t.entries)

-- The CPU frames of a run of pages with no GPU address are handed back, and the pages forgotten.
pub release_all-Exclusive :
    (n vpn : ℕ) (a : PageAllocator) (t u : PageTable)
    → Exclusive a t
    → ((v : ℕ) → in_range vpn n v ≡ true → gpu_of t v ≡ 0)
    → ((v : ℕ) → cpu_of u v ≡ (if in_range vpn n v then 0 else cpu_of t v))
    → ((v : ℕ) → gpu_of u v ≡ gpu_of t v)
    → Exclusive (release_all a (frames t vpn n)) u
unfolding release_all frames
release_all-Exclusive zero vpn a t u x bare c g = same-Exclusive x u 0 (λ v. ground (arith, c v)) g
release_all-Exclusive (suc n) vpn a t u x bare c g =
    let r = without t vpn in
    let y =
      deallocate_cpu-Exclusive x r vpn (cpu_of-without t vpn)
        (λ v. ground (arith, gpu_of-without t vpn v, bare v)) in
    let later : frames r (vpn + 1) n ≡ frames t (vpn + 1) n =
      frames_congr t r (vpn + 1) n (λ v h. ground (arith, cpu_of-without t vpn v)) in
    rw later at (
      release_all-Exclusive n (vpn + 1) (deallocate_cpu_page a (cpu_of t vpn)) r u y
        (λ v h. ground (arith, gpu_of-without t vpn v, bare v))
        (λ v. ground (arith, cpu_of-without t vpn v, c v))
        (λ v. ground (arith, gpu_of-without t vpn v, g v, bare v)))

-- The page keeps its entry and loses its CPU address.
abbrev clear_cpu : PageTable → ℕ → PageTable
clear_cpu t vpn = write (λ (e : PageTableEntry). record e { cpu_address = 0 }) t vpn

cpu_of-clear_cpu :
    (t : PageTable) (vpn v : ℕ) → cpu_of (clear_cpu t vpn) v ≡ (if vpn == v then 0 else cpu_of t v)
unfolding cpu_of
cpu_of-clear_cpu t vpn v =
    let f = λ (e : PageTableEntry). record e { cpu_address = 0 } in
    ap cpu_address_of (lookup-write f t vpn v) ∙ elim (Bool-cases (vpn == v)) [
      | inr there ↦ rw there
      | inl here ↦ rw here (elim (Option-cases (lookup_entry t v)) [
        | inl e ↦ rw (e, Option.map)
        | inr (e, q) ↦ rw (q, Option.map)
      ])
    ]

-- Both frames of a page are handed back, and the page forgotten.
pub release_page-Exclusive :
    (vpn : ℕ) (a : PageAllocator) (t : PageTable)
    → Exclusive a t
    → Exclusive
        (deallocate_gpu_page (deallocate_cpu_page a (cpu_of t vpn)) (gpu_of t vpn))
        (without t vpn)
release_page-Exclusive vpn a t x =
    let r = clear_cpu t vpn in
    let same =
      gpu_of-write_same (λ (e : PageTableEntry). record e { cpu_address = 0 }) t vpn (λ e. refl) in
    let y = deallocate_cpu-Exclusive x r vpn (cpu_of-clear_cpu t vpn) same in
    rw (same vpn) at (
      deallocate_gpu-Exclusive y (without t vpn) vpn
        (λ v. ground (arith, gpu_of-without t vpn v, same v))
        (λ v. ground (arith, cpu_of-without t vpn v, cpu_of-clear_cpu t vpn v)))
