-- ===== src/Vm/Ownership/Transfer.antt =====
-- The allocator's operations together with the writes to the page table that go with them.
use mathlib.Core.Path.{fun_ext}
use native.Mathlib.Nat.{add-zero}
use gpu_vmm.Prelude.{
  ℕ, ◌≡◌, ◌≢◌, refl, sym, ◌∙◌, ap, true, false, arith, if◌then◌else◌, ◌==◌, Bool-cases, inl, inr,
  ==→eq, ==→ne,
}
use gpu_vmm.PageAllocator.{
  PageAllocator, cpu_frame, gpu_frame, allocate_cpu_page, allocate_gpu_page, release_cpu_frame,
  release_gpu_frame, deallocate_cpu_page, deallocate_gpu_page,
}
use gpu_vmm.PageAllocator.Bitmap.{is_set, is_set-set}
use gpu_vmm.PageAllocator.Invariant.{
  allocate_cpu_page-IsValid, allocate_gpu_page-IsValid, deallocate_cpu_page-IsValid,
  deallocate_gpu_page-IsValid,
}
use gpu_vmm.PageAllocator.Frames.{
  deallocate_cpu_page-inside, deallocate_gpu_page-inside, cpu_frame-ne-zero, gpu_frame-ne-zero,
}
use gpu_vmm.PageAllocator.Allocate.{allocate_cpu_page_cases, allocate_gpu_page_cases}
use gpu_vmm.PageTable.{PageTable}
use gpu_vmm.Vm.Ownership.Owned.{Owned-take, Owned-release}
use gpu_vmm.Vm.Ownership.Table.{cpu_of, gpu_of}
use gpu_vmm.Vm.Ownership.Frames.{
  Exclusive, in_range_cpu, in_range_gpu, cpu_frame-injective, gpu_frame-injective,
  allocate_cpu_page_rest, allocate_gpu_page_rest, release_cpu_frame_rest, release_gpu_frame_rest,
  cpu_frame_congr, gpu_frame_congr,
}

release_gpu_frame_in_use :
    (a : PageAllocator) (i : ℕ)
    → is_set a.gpu_page_bitmap i ≡ true
    → (j : ℕ)
    → is_set (release_gpu_frame a i).gpu_page_bitmap j
      ≡ (if i == j then false else is_set a.gpu_page_bitmap j)
unfolding release_gpu_frame
release_gpu_frame_in_use a i used j =
    rw (used, release_gpu_frame) (is_set-set a.gpu_page_bitmap i j false (in_range_gpu a i used))

deallocate_gpu_page_null : (a : PageAllocator) → deallocate_gpu_page a 0 ≡ a
unfolding deallocate_gpu_page
deallocate_gpu_page_null a = refl

release_cpu_frame_in_use :
    (a : PageAllocator) (i : ℕ)
    → is_set a.cpu_page_bitmap i ≡ true
    → (j : ℕ)
    → is_set (release_cpu_frame a i).cpu_page_bitmap j
      ≡ (if i == j then false else is_set a.cpu_page_bitmap j)
unfolding release_cpu_frame
release_cpu_frame_in_use a i used j =
    rw (used, release_cpu_frame) (is_set-set a.cpu_page_bitmap i j false (in_range_cpu a i used))

deallocate_cpu_page_null : (a : PageAllocator) → deallocate_cpu_page a 0 ≡ a
unfolding deallocate_cpu_page
deallocate_cpu_page_null a = refl

module _ {a : PageAllocator} {t : PageTable} (x : Exclusive a t) (t' : PageTable) (vpn : ℕ) where
  -- The frame that `allocate_cpu_page` returns, or null, is made the CPU address of a page.
  pub allocate_cpu-Exclusive :
      cpu_of t vpn ≡ 0
      → ((v : ℕ) → cpu_of t' v ≡ (if vpn == v then (allocate_cpu_page a).1 else cpu_of t v))
      → ((v : ℕ) → gpu_of t' v ≡ gpu_of t v)
      → Exclusive (allocate_cpu_page a).0 t'
  allocate_cpu-Exclusive bare owns same =
      let b = (allocate_cpu_page a).0 in
      let (bitmap, config, pool) = allocate_cpu_page_rest a in
      record {
        valid = allocate_cpu_page-IsValid a x.valid;
        cpu = rw (cpu_frame_congr a b config pool) (elim (allocate_cpu_page_cases a x.valid) [
          | inl (i, k) ↦
              Owned-take x.cpu i vpn _ _ (λ j used e. cpu_frame-injective a x.valid i j e)
                k.was_free bare (λ j used. cpu_frame-ne-zero x.valid j) k.in_use
                (λ v. owns v ∙ ap (λ n. if vpn == v then n else cpu_of t v) k.address)
          | inr (e, _) ↦
              let same' : cpu_of t' ≡ cpu_of t = fun_ext (λ v. ground (arith, owns v, e, bare)) in
              rw (e, same') x.cpu
        ]);
        gpu =
            rw (gpu_frame_congr a b config, bitmap)
              (let e : gpu_of t' ≡ gpu_of t = fun_ext same in rw e x.gpu);
      }

  pub allocate_gpu-Exclusive :
      gpu_of t vpn ≡ 0
      → ((v : ℕ) → gpu_of t' v ≡ (if vpn == v then (allocate_gpu_page a).1 else gpu_of t v))
      → ((v : ℕ) → cpu_of t' v ≡ cpu_of t v)
      → Exclusive (allocate_gpu_page a).0 t'
  allocate_gpu-Exclusive bare owns same =
      let b = (allocate_gpu_page a).0 in
      let (bitmap, config, pool) = allocate_gpu_page_rest a in
      record {
        valid = allocate_gpu_page-IsValid a x.valid;
        gpu = rw (gpu_frame_congr a b config) (elim (allocate_gpu_page_cases a x.valid) [
          | inl (i, k) ↦
              Owned-take x.gpu i vpn _ _
                (λ j used e. gpu_frame-injective a x.valid i j k.in_pool (in_range_gpu a j used) e)
                k.was_free bare (λ j used. gpu_frame-ne-zero x.valid j (in_range_gpu a j used))
                k.in_use (λ v. owns v ∙ ap (λ n. if vpn == v then n else gpu_of t v) k.address)
          | inr (e, _) ↦
              let same' : gpu_of t' ≡ gpu_of t = fun_ext (λ v. ground (arith, owns v, e, bare)) in
              rw (e, same') x.gpu
        ]);
        cpu =
            rw (cpu_frame_congr a b config pool, bitmap)
              (let e : cpu_of t' ≡ cpu_of t = fun_ext same in rw e x.cpu);
      }

  release_gpu-Exclusive :
      (i : ℕ)
      → gpu_of t vpn ≢ 0
      → is_set a.gpu_page_bitmap i ≡ true
      → gpu_of t vpn ≡ gpu_frame a i
      → ((v : ℕ) → gpu_of t' v ≡ (if vpn == v then 0 else gpu_of t v))
      → ((v : ℕ) → cpu_of t' v ≡ cpu_of t v)
      → Exclusive (deallocate_gpu_page a (gpu_of t vpn)) t'
  release_gpu-Exclusive i pos used mine owns same =
      let b = release_gpu_frame a i in
      let freed : deallocate_gpu_page a (gpu_of t vpn) ≡ b =
        ap (deallocate_gpu_page a) (mine ∙ sym (add-zero (gpu_frame a i)))
        ∙ deallocate_gpu_page-inside x.valid i 0 (in_range_gpu a i used) x.valid.page_pos in
      let (bitmap, config, pool) = release_gpu_frame_rest a i in
      rw freed (record {
        valid = rw freed at (deallocate_gpu_page-IsValid a (gpu_of t vpn) x.valid);
        gpu = rw (gpu_frame_congr a b config) (
            Owned-release x.gpu i vpn _ _ pos mine
              (λ j u e.
                gpu_frame-injective a x.valid i j (in_range_gpu a i used) (in_range_gpu a j u) e)
              (release_gpu_frame_in_use a i used) owns);
        cpu =
            rw (cpu_frame_congr a b config pool, bitmap)
              (let e : cpu_of t' ≡ cpu_of t = fun_ext same in rw e x.cpu);
      })

  -- The page's own GPU frame, if it has one, is handed back and its address cleared.
  pub deallocate_gpu-Exclusive :
      ((v : ℕ) → gpu_of t' v ≡ (if vpn == v then 0 else gpu_of t v))
      → ((v : ℕ) → cpu_of t' v ≡ cpu_of t v)
      → Exclusive (deallocate_gpu_page a (gpu_of t vpn)) t'
  deallocate_gpu-Exclusive owns same = elim (Bool-cases (gpu_of t vpn == 0)) [
    | inl without ↦
        let zero_held = ==→eq (gpu_of t vpn) 0 without in
        let e : gpu_of t' ≡ gpu_of t = fun_ext (λ v. ground (arith, owns v, zero_held)) in
        let f : cpu_of t' ≡ cpu_of t = fun_ext same in
        rw (zero_held, deallocate_gpu_page_null a)
          (record { valid = x.valid; gpu = rw e x.gpu; cpu = rw f x.cpu })
    | inr held ↦
        let pos = ==→ne (gpu_of t vpn) 0 held in
        let (i, used, mine) = x.gpu.held vpn pos in release_gpu-Exclusive i pos used mine owns same
  ]

  release_cpu-Exclusive :
      (i : ℕ)
      → cpu_of t vpn ≢ 0
      → is_set a.cpu_page_bitmap i ≡ true
      → cpu_of t vpn ≡ cpu_frame a i
      → ((v : ℕ) → cpu_of t' v ≡ (if vpn == v then 0 else cpu_of t v))
      → ((v : ℕ) → gpu_of t' v ≡ gpu_of t v)
      → Exclusive (deallocate_cpu_page a (cpu_of t vpn)) t'
  release_cpu-Exclusive i pos used mine owns same =
      let b = release_cpu_frame a i in
      let freed : deallocate_cpu_page a (cpu_of t vpn) ≡ b =
        ap (deallocate_cpu_page a) (mine ∙ sym (add-zero (cpu_frame a i)))
        ∙ deallocate_cpu_page-inside x.valid i 0 (in_range_cpu a i used) x.valid.page_pos in
      let (bitmap, config, pool) = release_cpu_frame_rest a i in
      rw freed (record {
        valid = rw freed at (deallocate_cpu_page-IsValid a (cpu_of t vpn) x.valid);
        cpu = rw (cpu_frame_congr a b config pool) (
            Owned-release x.cpu i vpn _ _ pos mine (λ j u e. cpu_frame-injective a x.valid i j e)
              (release_cpu_frame_in_use a i used) owns);
        gpu =
            rw (gpu_frame_congr a b config, bitmap)
              (let e : gpu_of t' ≡ gpu_of t = fun_ext same in rw e x.gpu);
      })

  -- The page's own CPU frame, if it has one, is handed back and its address cleared.
  pub deallocate_cpu-Exclusive :
      ((v : ℕ) → cpu_of t' v ≡ (if vpn == v then 0 else cpu_of t v))
      → ((v : ℕ) → gpu_of t' v ≡ gpu_of t v)
      → Exclusive (deallocate_cpu_page a (cpu_of t vpn)) t'
  deallocate_cpu-Exclusive owns same = elim (Bool-cases (cpu_of t vpn == 0)) [
    | inl without ↦
        let zero_held = ==→eq (cpu_of t vpn) 0 without in
        let e : cpu_of t' ≡ cpu_of t = fun_ext (λ v. ground (arith, owns v, zero_held)) in
        let f : gpu_of t' ≡ gpu_of t = fun_ext same in
        rw (zero_held, deallocate_cpu_page_null a)
          (record { valid = x.valid; cpu = rw e x.cpu; gpu = rw f x.gpu })
    | inr held ↦
        let pos = ==→ne (cpu_of t vpn) 0 held in
        let (i, used, mine) = x.cpu.held vpn pos in release_cpu-Exclusive i pos used mine owns same
  ]

  -- Writes that change no address leave the frames as they are.
  pub same-Exclusive :
      ((v : ℕ) → cpu_of t' v ≡ cpu_of t v) → ((v : ℕ) → gpu_of t' v ≡ gpu_of t v) → Exclusive a t'
  same-Exclusive c g =
      let e : cpu_of t' ≡ cpu_of t = fun_ext c in
      let f : gpu_of t' ≡ gpu_of t = fun_ext g in
      record { valid = x.valid; cpu = rw e x.cpu; gpu = rw f x.gpu }
