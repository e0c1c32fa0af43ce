-- ===== src/Vm/Ownership/Same.antt =====
-- Steps that change the page table and no address in it: migrations and other writes to the flags.
use gpu_vmm.Prelude.{
  ℕ, ◌≡◌, refl, ◌∙◌, true, false, ◌||◌, some, arith, ◌==◌, Bool-cases, Option-cases, inl, inr,
}
use gpu_vmm.PageTable.{PageTable, PageTableEntry, lookup_entry, write}
use gpu_vmm.PageAllocator.{PageAllocator}
use gpu_vmm.Migration.{migrate_cpu_to_gpu, migrate_gpu_to_cpu}
use gpu_vmm.Vm.State.{World, Vm, charge_to_gpu, charge_to_cpu, now, tick}
use gpu_vmm.Vm.Ownership.Table.{
  cpu_of, gpu_of, cpu_of-some, cpu_of-write_same, gpu_of-write_same, cpu_of-write, gpu_of-write,
}
use gpu_vmm.Vm.Ownership.Frames.{Exclusive}
use gpu_vmm.Vm.Ownership.Transfer.{same-Exclusive}
use gpu_vmm.Vm.Ownership.Extends.{Extends, Extends-refl, write-Extends, write-Extends_plain}

-- Every page keeps its addresses and its entry.
pub record IsSame (t u : PageTable) : Type 0 where
  pub cpu : (v : ℕ) → cpu_of u v ≡ cpu_of t v
  pub gpu : (v : ℕ) → gpu_of u v ≡ gpu_of t v
  pub extends : Extends t u

pub IsSame-refl : (t : PageTable) → IsSame t t
IsSame-refl t = record { cpu = λ v. refl; gpu = λ v. refl; extends = Extends-refl t }

pub IsSame-Exclusive :
    {a : PageAllocator} {t : PageTable}
    → Exclusive a t
    → (u : PageTable) → IsSame t u
    → Exclusive a u
IsSame-Exclusive x u s = same-Exclusive x u 0 s.cpu s.gpu

pub write-IsSame :
    (f : PageTableEntry → PageTableEntry) (t : PageTable) (vpn : ℕ)
    → ((e : PageTableEntry) → (f e).cpu_address ≡ e.cpu_address)
    → ((e : PageTableEntry) → (f e).gpu_address ≡ e.gpu_address)
    → ((e : PageTableEntry) → e.resident_on_cpu ≡ true → (f e).resident_on_cpu ≡ true)
    → IsSame t (write f t vpn)
write-IsSame f t vpn c g flag = record {
  cpu = cpu_of-write_same f t vpn c;
  gpu = gpu_of-write_same f t vpn g;
  extends = write-Extends_plain f t vpn flag c;
}

pub migrate_cpu_to_gpu-IsSame :
    (start stop : ℕ) (t : PageTable) (vpn cpu gpu : ℕ)
    → gpu ≡ gpu_of t vpn
    → IsSame t (migrate_cpu_to_gpu start stop t vpn cpu gpu).0
unfolding migrate_cpu_to_gpu
migrate_cpu_to_gpu-IsSame start stop t vpn cpu gpu own = elim (Bool-cases (cpu == 0)) [
  | inl null ↦ rw null (IsSame-refl t)
  | inr there ↦ elim (Option-cases (lookup_entry t vpn)) [
    | inl e ↦ rw (there, e) (IsSame-refl t)
    | inr (x, e) ↦
        let f = λ (y : PageTableEntry). record y {
          resident_on_gpu = true;
          gpu_address = gpu;
          is_dirty = false;
        } in
        rw (there, e)
          (record {
            cpu = cpu_of-write_same f t vpn (λ y. refl);
            gpu = λ v. ground (arith, gpu_of-write f t vpn gpu x (λ y. refl) e v, own);
            extends = write-Extends_plain f t vpn (λ y on. on) (λ y. refl);
          })
  ]
]

migrate_gpu_to_cpu-IsSame :
    (start stop : ℕ) (t : PageTable) (vpn gpu cpu : ℕ) (x : PageTableEntry)
    → lookup_entry t vpn ≡ some x
    → cpu ≡ cpu_of t vpn
    → IsSame t (migrate_gpu_to_cpu start stop t vpn gpu cpu).0
unfolding migrate_gpu_to_cpu
migrate_gpu_to_cpu-IsSame start stop t vpn gpu cpu x e own =
    elim (Bool-cases (cpu == 0 || gpu == 0)) [
      | inl null ↦ rw null (IsSame-refl t)
      | inr there ↦
          let f = λ (y : PageTableEntry). record y { resident_on_cpu = true; cpu_address = cpu } in
          rw there (record {
            gpu = gpu_of-write_same f t vpn (λ y. refl);
            cpu = λ v. ground (arith, cpu_of-write f t vpn cpu x (λ y. refl) e v, own);
            extends = write-Extends f t vpn (λ y on. refl) (λ y h z. own ∙ cpu_of-some t vpn y h);
          })
    ]

pub charge_to_gpu-IsSame :
    (w : World) (s : Vm) (vpn cpu gpu : ℕ)
    → gpu ≡ gpu_of s.page_table vpn
    → IsSame s.page_table (charge_to_gpu w s vpn cpu gpu).page_table
unfolding charge_to_gpu
charge_to_gpu-IsSame w s vpn cpu gpu own =
    migrate_cpu_to_gpu-IsSame (now w s) (now w (tick s)) s.page_table vpn cpu gpu own

pub charge_to_cpu-IsSame :
    (w : World) (s : Vm) (vpn gpu cpu : ℕ) (x : PageTableEntry)
    → lookup_entry s.page_table vpn ≡ some x
    → cpu ≡ cpu_of s.page_table vpn
    → IsSame s.page_table (charge_to_cpu w s vpn gpu cpu).page_table
unfolding charge_to_cpu
charge_to_cpu-IsSame w s vpn gpu cpu x e own =
    migrate_gpu_to_cpu-IsSame (now w s) (now w (tick s)) s.page_table vpn gpu cpu x e own
