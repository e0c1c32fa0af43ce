-- ===== src/Migration/Drain.antt =====
-- What the workers do by themselves.
use mathlib.Core.List.{append-nil}
use gpu_vmm.Prelude.{
  ℕ, zero, suc, ◌+◌, ◌*◌, ◌≤◌, ◌≡◌, ◌≢◌, ◌⊎◌, refl, sym, ◌∙◌, ap, Bool, true, false, some, List, [],
  ◌∷◌, ◌++◌, arith, length, set, get_elem?, inl, inr,
}
use gpu_vmm.PageTable.{PageTable}
use gpu_vmm.Migration.Workers.{
  Job, Worker, testing, waiting, stopped, running, Pool, create, Step, submit, enter, leave, take,
  break, finish, shut, Reach, is_running, busy,
}
use gpu_vmm.Migration.Conservation.{
  IsConserved, Step-IsConserved, Reach-IsConserved, create-IsConserved,
}

-- The step is one of a worker, not of a submitter or of the destructor.
unfoldable pub is_work : {p q : Pool} → Step p q → Bool
is_work (submit j) = false
is_work (enter i w e) = true
is_work (leave i w e) = true
is_work (take i j q w e) = true
is_work (break i w e s) = true
is_work (finish i j start stop w) = true
is_work shut = false

-- Steps of workers only, with their number.
pub data Works (p : Pool) : Pool → ℕ → Type 0 where
  idle : Works p p 0
  work : {q r : Pool} {n : ℕ} → Works p q n → (s : Step q r) → is_work s ≡ true → Works p r (suc n)

-- What a worker may still do before it has to wait for a job.
pub effort : Worker → ℕ
effort stopped = 0
effort waiting = 1
effort testing = 2
effort (running _) = 3

pub efforts : List Worker → ℕ
efforts [] = 0
efforts (w ∷ ws) = effort w + efforts ws

pub work_left : Pool → ℕ
work_left p = 3 * length p.queue + efforts p.workers

-- The destructor has not begun, and worker `i` is in its loop.
pub record IsAlive (p : Pool) : Type 0 where
  pub on : p.shutdown ≡ false
  pub index : ℕ
  pub worker : Worker
  pub at_index : get_elem? p.workers index ≡ some worker
  pub looping : worker ≢ stopped

effort-le : (w : Worker) → effort w ≤ 3
unfolding effort
effort-le testing = omega arith
effort-le waiting = omega arith
effort-le stopped = omega arith
effort-le (running j) = omega arith

efforts-le : (ws : List Worker) → efforts ws ≤ 3 * length ws
unfolding efforts
efforts-le [] = omega arith
efforts-le (w ∷ ws) = omega (arith, effort-le w, efforts-le ws)

efforts-set :
    (ws : List Worker) (i : ℕ) (old w : Worker)
    → get_elem? ws i ≡ some old
    → efforts (set ws i w) + effort old ≡ efforts ws + effort w
unfolding efforts
efforts-set [] i old w h = absurd (ground (arith, h))
efforts-set (x ∷ ws) zero old w h =
    let e : effort x ≡ effort old = ground (arith, h) in omega (arith, e)
efforts-set (x ∷ ws) (suc i) old w h = omega (arith, efforts-set ws i old w h)

work-less : {p q : Pool} (s : Step p q) → is_work s ≡ true → suc (work_left q) ≤ work_left p
unfolding work_left effort is_work
work-less (submit j) h = absurd (ground (arith, h))
work-less shut h = absurd (ground (arith, h))
work-less {p} (enter i w e) h = omega (arith, efforts-set p.workers i testing waiting w)
work-less {p} (leave i w e) h = omega (arith, efforts-set p.workers i testing stopped w)
work-less {p} (take i j q w e) h =
    let n : length p.queue ≡ suc (length q) = ap length e in
    omega (arith, n, efforts-set p.workers i waiting (running j) w)
work-less {p} (break i w e s) h = omega (arith, efforts-set p.workers i waiting stopped w)
work-less {p} (finish i j start stop w) h =
    omega (arith, efforts-set p.workers i (running j) testing w)

-- Worker `j` is still in its loop when some worker takes on a state of the loop.
still_looping :
    (ws : List Worker) (i j : ℕ) (v w : Worker)
    → w ≢ stopped
    → get_elem? ws j ≡ some v
    → v ≢ stopped
    → (x : Worker) × (get_elem? (set ws i w) j ≡ some x) × (x ≢ stopped)
still_looping [] i j v w ne h loops = absurd (ground (arith, h))
still_looping (x ∷ ws) zero zero v w ne h loops = (w, refl, ne)
still_looping (x ∷ ws) zero (suc j) v w ne h loops = (v, h, loops)
still_looping (x ∷ ws) (suc i) zero v w ne h loops = (v, h, loops)
still_looping (x ∷ ws) (suc i) (suc j) v w ne h loops = still_looping ws i j v w ne h loops

goes_on :
    (p q : Pool) (i : ℕ) (w : Worker)
    → IsAlive p
    → q.shutdown ≡ p.shutdown
    → q.workers ≡ set p.workers i w
    → w ≢ stopped
    → IsAlive q
goes_on p q i w a down workers ne =
    let (x, there, loops) = still_looping p.workers i a.index a.worker w ne a.at_index a.looping in
    record {
      on = down ∙ a.on;
      index = a.index;
      worker = x;
      at_index = rw workers there;
      looping = loops;
    }

work-IsAlive : {p q : Pool} (s : Step p q) → is_work s ≡ true → IsAlive p → IsAlive q
unfolding is_work
work-IsAlive (submit j) h a = absurd (ground (arith, h))
work-IsAlive shut h a = absurd (ground (arith, h))
work-IsAlive {p} {q} (enter i w e) h a = goes_on p q i waiting a refl refl (λ z. ground (arith, z))
work-IsAlive {p} (leave i w e) h a = absurd (ground (arith, a.on, e))
work-IsAlive {p} {q} (take i j l w e) h a =
    goes_on p q i (running j) a refl refl (λ z. ground (arith, z))
work-IsAlive {p} (break i w e s) h a = absurd (ground (arith, a.on, s))
work-IsAlive {p} {q} (finish i j start stop w) h a =
    goes_on p q i testing a refl refl (λ z. ground (arith, z))

Works-IsAlive : {p q : Pool} {n : ℕ} → Works p q n → IsAlive p → IsAlive q
Works-IsAlive idle a = a
Works-IsAlive (work r s h) a = work-IsAlive s h (Works-IsAlive r a)

Works-bounded : {p q : Pool} {n : ℕ} → Works p q n → n + work_left q ≤ work_left p
Works-bounded idle = omega arith
Works-bounded (work r s h) = omega (arith, Works-bounded r, work-less s h)

Works-IsConserved : {p q : Pool} {n : ℕ} → Works p q n → IsConserved p → IsConserved q
Works-IsConserved idle c = c
Works-IsConserved (work r s h) c = Step-IsConserved s (Works-IsConserved r c)

-- Either no worker has a job in hand, or one of them has.
busy_worker :
    (ws : List Worker) → (busy ws ≡ 0) ⊎ ((i : ℕ) × (j : Job) × (get_elem? ws i ≡ some (running j)))
unfolding busy is_running
busy_worker [] = inl refl
busy_worker (running j ∷ ws) = inr (0, j, refl)
busy_worker (testing ∷ ws) = elim (busy_worker ws) [
  | inl z ↦ inl (omega (arith, z))
  | inr (i, j, h) ↦ inr (suc i, j, h)
]
busy_worker (waiting ∷ ws) = elim (busy_worker ws) [
  | inl z ↦ inl (omega (arith, z))
  | inr (i, j, h) ↦ inr (suc i, j, h)
]
busy_worker (stopped ∷ ws) = elim (busy_worker ws) [
  | inl z ↦ inl (omega (arith, z))
  | inr (i, j, h) ↦ inr (suc i, j, h)
]

-- No worker can take a step.
abbrev pub IsStuck : Pool → Type 0
IsStuck p = (q : Pool) (s : Step p q) → is_work s ≢ true

stuck-idle : (p : Pool) → IsStuck p → busy p.workers ≡ 0
unfolding is_work
stuck-idle p stuck = elim (busy_worker p.workers) [
  | inl z ↦ z
  | inr (i, j, h) ↦ absurd (stuck _ (finish i j 0 0 h) refl)
]

stuck-empty :
    (p : Pool) (i : ℕ) (w : Worker) (js : List Job)
    → IsStuck p
    → p.shutdown ≡ false
    → get_elem? p.workers i ≡ some w
    → w ≢ stopped
    → p.queue ≡ js
    → js ≡ []
unfolding is_work
stuck-empty p i w [] stuck on h loops e = refl
stuck-empty p i testing (j ∷ js) stuck on h loops e = absurd (stuck _ (enter i h on) refl)
stuck-empty p i waiting (j ∷ js) stuck on h loops e = absurd (stuck _ (take i j js h e) refl)
stuck-empty p i (running k) (j ∷ js) stuck on h loops e = absurd (stuck _ (finish i k 0 0 h) refl)
stuck-empty p i stopped (j ∷ js) stuck on h loops e = absurd (loops refl)

-- The manager's queue drains. After any steps of a new pool whose workers have no job, let the destructor not have
-- begun and some worker be in its loop, and let the workers then take steps by themselves until none of them can go
-- on. They have taken no more steps than three for each job in the queue and three for each worker; the queue is
-- empty, and every job submitted has been started, in the order of submission, and finished.
pub workers-drain :
    (t : PageTable) (ws : List Worker) (p q : Pool) (n : ℕ)
    → busy ws ≡ 0
    → Reach (create t ws) p
    → IsAlive p
    → Works p q n
    → IsStuck q
    → (n ≤ 3 * length p.queue + 3 * length p.workers)
      × (q.queue ≡ [])
      × (q.started ≡ q.submitted)
      × (length q.finished ≡ length q.submitted)
unfolding work_left
workers-drain t ws p q n none_busy reach alive r stuck =
    let c = Works-IsConserved r (Reach-IsConserved (create-IsConserved t ws none_busy) reach) in
    let a = Works-IsAlive r alive in
    let empty = stuck-empty q a.index a.worker q.queue stuck a.on a.at_index a.looping refl in
    let all : q.started ≡ q.submitted =
      sym (append-nil q.started) ∙ ap (◌++◌ q.started) (sym empty) ∙ c.in_order in
    (
      omega (arith, Works-bounded r, efforts-le p.workers),
      empty,
      all,
      omega (arith, c.accounted, stuck-idle q stuck, ap length all),
    )
