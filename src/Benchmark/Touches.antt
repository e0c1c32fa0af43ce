-- ===== src/Benchmark/Touches.antt =====
-- What a loop of touches of allocated pages does to a manager: it counts nothing.
use gpu_vmm.Prelude.{
  ℕ, zero, suc, ◌+◌, ◌*◌, ◌/◌, ◌%◌, ◌≤◌, ◌<◌, ◌≡◌, refl, sym, ◌∙◌, ap, Bool, false, ◌==◌, arith,
  Returns, ok, ◌>>=◌,
}
use gpu_vmm.Common.Words.{u64_mod, u64_add}
use gpu_vmm.Common.Address.{vaddr_to_vpn, vpn_to_vaddr}
use gpu_vmm.Vm.State.{World, VmConfig, Vm}
use gpu_vmm.Vm.Access.{touch_page, record_touch}
use gpu_vmm.Vm.Allocate
use gpu_vmm.Vm.Allocate.{pages_of}
use gpu_vmm.Vm.Lifecycle.{running, initialize, when_running, allocate}
use gpu_vmm.Vm.Ownership.Extends.{Present}
use gpu_vmm.Vm.Ownership.Valid.{IsValid, Keeps, Keeps-refl, Keeps-trans}
use gpu_vmm.Vm.Ownership.Touch.{record_touch-Keeps}
use gpu_vmm.Vm.Ownership.Allocate.{Allocates}
use gpu_vmm.Benchmark.{Machine, given, begin, touch_loop, pass_loop, page_address}

-- The manager is kept, and nothing is counted.
pub record Uncounted (s u : Vm) : Type 0 where
  pub keeps : Keeps s u
  pub counters : u.perf_counters ≡ s.perf_counters

pub Uncounted-trans : {s u r : Vm} → Uncounted s u → Uncounted u r → Uncounted s r
Uncounted-trans a b = record {
  keeps = Keeps-trans a.keeps b.keeps;
  counters = b.counters ∙ a.counters;
}

pub touch_page-Uncounted :
    (w : World) (s : Vm) (vaddr : ℕ) (is_write : Bool)
    → IsValid s
    → Present s.page_table (vaddr_to_vpn vaddr s.config.page_size)
    → Returns (touch_page w s vaddr is_write) (Uncounted s)
unfolding touch_page record_touch
touch_page-Uncounted w s vaddr is_write v (e, found) =
    let vpn = vaddr_to_vpn vaddr s.config.page_size in
    (
      record_touch w s vpn is_write,
      rw (found, touch_page),
      (record {
        keeps = record_touch-Keeps w s vpn is_write v;
        counters = rw (found, record_touch);
      }),
    )

module _ {W : Type 0} (k : Machine W) where
  pub touch_loop-Uncounted :
      (address : ℕ → ℕ) (is_write : ℕ → Bool) (left i : ℕ) (s : Vm)
      → IsValid s
      → ((j : ℕ)
          → i ≤ j
          → j < i + left
          → Present s.page_table (vaddr_to_vpn (address j) s.config.page_size))
      → Returns
          (touch_loop k address is_write left i (running s))
          λ m. (u : Vm) × (m ≡ running u) × Uncounted s u
  unfolding touch_loop when_running
  touch_loop-Uncounted address is_write zero i s v present =
      (running s, refl, (s, refl, (record { keeps = Keeps-refl s v; counters = refl })))
  touch_loop-Uncounted address is_write (suc left) i s v present =
      let (u, run, a) =
        touch_page-Uncounted k.world s (address i) (is_write i) v
          (present i (omega arith) (omega arith)) in
      let (m, rest, (r, is_running, b)) =
        touch_loop-Uncounted address is_write left (i + 1) u a.keeps.valid (λ j le lt.
          rw (sym a.keeps.fixed.config) at
            (a.keeps.extends.present _ (present j (omega arith) (omega arith)))) in
      (
        m,
        ap (λ x. (x >>= λ q. ok (running q)) >>= touch_loop k address is_write left (i + 1)) run
            ∙ rest,
        (r, is_running, Uncounted-trans a b),
      )

  pub pass_loop-Uncounted :
      (vaddr num_pages passes : ℕ) (s : Vm)
      → IsValid s
      → ((j : ℕ)
          → j < num_pages
          → Present s.page_table (vaddr_to_vpn (page_address k vaddr j) s.config.page_size))
      → Returns
          (pass_loop k vaddr num_pages passes (running s))
          λ m. (u : Vm) × (m ≡ running u) × Uncounted s u
  unfolding pass_loop
  pass_loop-Uncounted vaddr num_pages zero s v present =
      (running s, refl, (s, refl, (record { keeps = Keeps-refl s v; counters = refl })))
  pass_loop-Uncounted vaddr num_pages (suc passes) s v present =
      let (m, run, (u, at_u, a)) =
        touch_loop-Uncounted (page_address k vaddr) (λ page. false) num_pages 0 s v
          (λ j le lt. present j (omega arith)) in
      let (n, rest, (r, at_r, b)) =
        pass_loop-Uncounted vaddr num_pages passes u a.keeps.valid
          (λ j lt. rw (sym a.keeps.fixed.config) at (a.keeps.extends.present _ (present j lt))) in
      (
        n,
        ap (λ x. x >>= pass_loop k vaddr num_pages passes) (run ∙ ap ok at_u) ∙ rest,
        (r, at_r, Uncounted-trans a b),
      )

-- An address within an allocation names one of its pages.
pub offset-Present :
    (s : Vm) (n : ℕ) (r : Vm × ℕ) (offset : ℕ)
    → Allocates s n r
    → s.config.page_size ≡ 64 * 1024
    → (s.next_vpn + n) * (64 * 1024) < u64_mod
    → offset < n * (64 * 1024)
    → Present r.0.page_table (vaddr_to_vpn (u64_add r.1 offset) r.0.config.page_size)
unfolding vaddr_to_vpn vpn_to_vaddr
offset-Present s n r offset a size room lt =
    let at_vaddr : r.1 ≡ s.next_vpn * 65536 % u64_mod = a.address ∙ rw size in
    let here : vaddr_to_vpn (u64_add r.1 offset) 65536 ≡ s.next_vpn + offset / 65536 =
      rw at_vaddr (omega arith) in
    let below : offset / 65536 < n = omega arith in
    let (on_cpu, _) = a.pages (s.next_vpn + offset / 65536) (ground arith) in
    rw (a.config, size, here) (on_cpu.0, on_cpu.1)

pub begin-given :
    {W : Type 0} (k : Machine W) (s : Vm) (c : VmConfig) (working_set_size : ℕ)
    → let r = Allocate.allocate k.world s working_set_size false in
      (r.1 == 0) ≡ false → begin k (running s) c working_set_size ≡ ok (running r.0, given, r.1)
unfolding begin initialize allocate
begin-given k s c working_set_size h = rw h

-- Enough pages for every address of the working set.
