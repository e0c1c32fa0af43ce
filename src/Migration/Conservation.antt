-- ===== src/Migration/Conservation.antt =====
-- What holds of the migration queue after any interleaving of submitters and workers.
use mathlib.Core.List.{append_assoc, append-nil}
use gpu_vmm.Prelude.{
  ℕ, zero, suc, ◌+◌, ◌≡◌, refl, sym, ◌∙◌, ap, Bool, false, some, List, [], ◌∷◌, ◌++◌, arith, length,
  set, get_elem?, length-append,
}
use gpu_vmm.PageTable.{PageTable}
use gpu_vmm.Migration.Workers.{
  Job, Worker, testing, waiting, stopped, running, Pool, create, Step, submit, enter, leave, take,
  break, finish, shut, Reach, here, next, WaitReturns, AllStopped, is_running, busy,
}

-- Jobs start in the order of submission, each once; and a started job is finished or in a worker's hand.
pub record IsConserved (p : Pool) : Type 0 where
  pub in_order : p.started ++ p.queue ≡ p.submitted
  pub accounted : length p.started ≡ length p.finished + busy p.workers

busy-set :
    (ws : List Worker) (i : ℕ) (old w : Worker)
    → get_elem? ws i ≡ some old
    → busy (set ws i w) + is_running old ≡ busy ws + is_running w
unfolding busy
busy-set [] i old w h = absurd (ground (arith, h))
busy-set (x ∷ ws) zero old w h =
    let e : is_running x ≡ is_running old = ground (arith, h) in omega (arith, e)
busy-set (x ∷ ws) (suc i) old w h = omega (arith, busy-set ws i old w h)

pub Step-IsConserved : {p q : Pool} → Step p q → IsConserved p → IsConserved q
unfolding is_running
Step-IsConserved {p} (submit j) c = record {
  in_order = sym (append_assoc p.started p.queue (j ∷ [])) ∙ ap (λ l. l ++ j ∷ []) c.in_order;
  accounted = c.accounted;
}
Step-IsConserved {p} (enter i w e) c = record {
  in_order = c.in_order;
  accounted = omega (arith, busy-set p.workers i testing waiting w, c.accounted);
}
Step-IsConserved {p} (leave i w e) c = record {
  in_order = c.in_order;
  accounted = omega (arith, busy-set p.workers i testing stopped w, c.accounted);
}
Step-IsConserved {p} (take i j q w e) c = record {
  in_order = append_assoc p.started (j ∷ []) q ∙ ap (◌++◌ p.started) (sym e) ∙ c.in_order;
  accounted = omega (
    arith,
    busy-set p.workers i waiting (running j) w,
    c.accounted,
    length-append p.started (j ∷ []),
  );
}
Step-IsConserved {p} (break i w e s) c = record {
  in_order = c.in_order;
  accounted = omega (arith, busy-set p.workers i waiting stopped w, c.accounted);
}
Step-IsConserved {p} (finish i j start stop w) c = record {
  in_order = c.in_order;
  accounted = omega (
    arith,
    busy-set p.workers i (running j) testing w,
    c.accounted,
    length-append p.finished (j ∷ []),
  );
}
Step-IsConserved shut c = record { in_order = c.in_order; accounted = c.accounted }

pub Reach-IsConserved : {p q : Pool} → IsConserved p → Reach p q → IsConserved q
Reach-IsConserved c here = c
Reach-IsConserved c (next r s) = Step-IsConserved s (Reach-IsConserved c r)

pub create-IsConserved :
    (t : PageTable) (ws : List Worker) → busy ws ≡ 0 → IsConserved (create t ws)
unfolding create
create-IsConserved t ws idle = record { in_order = refl; accounted = omega (arith, idle) }

-- After any steps of a new pool whose workers have no job, when `wait_for_migrations` returns, every submitted job has been started,
-- in the order of submission, and the jobs that are not finished are as many as the busy workers.
pub wait-started :
    (t : PageTable) (ws : List Worker) (p : Pool)
    → busy ws ≡ 0
    → Reach (create t ws) p
    → WaitReturns p
    → (p.started ≡ p.submitted) × (length p.submitted ≡ length p.finished + busy p.workers)
wait-started t ws p idle r empty =
    let c = Reach-IsConserved (create-IsConserved t ws idle) r in
    let e : p.started ≡ p.submitted =
      sym (append-nil p.started) ∙ ap (◌++◌ p.started) (sym empty) ∙ c.in_order in
    (e, ap length (sym e) ∙ c.accounted)

-- `wait_for_migrations` may return with a job unfinished: with one worker ready, any job can have been
-- submitted and taken, with nothing finished and the page table as it was.
pub wait_too_early :
    (t : PageTable) (ws : List Worker) (j : Job)
    → (p : Pool) × Reach (create t (testing ∷ ws)) p
      × WaitReturns p
      × (p.submitted ≡ j ∷ [])
      × (p.finished ≡ [])
      × (p.table ≡ t)
unfolding create
wait_too_early t ws j =
    let taken = next (next (next here (submit j)) (enter 0 refl refl)) (take 0 j [] refl refl) in
    (_, taken, refl, refl, refl, refl)

with_queue : PageTable → List Worker → Bool → List Job → Pool
with_queue t ws down js = record (create t ws) { queue = js; shutdown = down; submitted = js }

Reach-submit_all :
    (t : PageTable) (ws : List Worker) (done js : List Job)
    → Reach (create t ws) (with_queue t ws false done)
    → Reach (create t ws) (with_queue t ws false (done ++ js))
Reach-submit_all t ws done [] r = rw (append-nil done) r
Reach-submit_all t ws done (j ∷ js) r =
    rw (append_assoc done (j ∷ []) js) at
      (Reach-submit_all t ws (done ++ j ∷ []) js (unfold with_queue in next r (submit j)))

-- The destructor may drop what is still queued: whatever jobs are submitted, a pool with one worker can reach a
-- state in which every worker has left its loop, all the jobs are still in the queue, and none is finished.
pub jobs_dropped :
    (t : PageTable) (js : List Job)
    → (p : Pool) × Reach (create t (testing ∷ [])) p
      × AllStopped p.workers
      × (p.submitted ≡ js)
      × (p.finished ≡ [])
      × (p.queue ≡ js)
unfolding create with_queue
jobs_dropped t js =
    let all = Reach-submit_all t (testing ∷ []) [] js here in
    (_, next (next all shut) (leave 0 refl refl), (refl, tt), refl, refl, refl)
