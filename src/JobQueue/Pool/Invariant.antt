-- ===== src/JobQueue/Pool/Invariant.antt =====
-- What holds of the pool and its threads, and the parts of a step.
use reactor_server.Prelude.{
  ℕ, zero, suc, ◌+◌, ◌≤◌, ◌<◌, ◌≡◌, refl, sym, ap, ◌∙◌, subst, true, false, List, [], ◌∷◌, ◌++◌,
  none, some, length, arith, inl, inr,
}
use reactor_server.Prelude.Int.{ℤ}
use reactor_server.Prelude.Memory.{assign, assign_self, assign_ne, same-or-other}
use reactor_server.JobQueue.{Job, ThreadJobQueue, sem_wait, set_job}
use reactor_server.JobQueue.Chain.{Holds, Links-prev}
use reactor_server.JobQueue.Pool.{ThreadPool, start}

-- The queue holds the jobs that were added and not yet taken, in order. While the pool is kept
-- alive, each of them has a post of the semaphore or a thread that consumed one; afterwards there
-- is a post for each thread that waits. Each thread that is to take a job finds one.
pub record IsSound (added taken : List ℕ) (p : ThreadPool) : Type 0 where
  pub jobs : List ℕ
  pub holds : Holds jobs p.job_queue
  pub in_order : added ≡ taken ++ jobs
  pub posts : p.keep_alive ≡ true → p.job_queue.queue_sem + p.passed + p.taking ≡ p.job_queue.number
  pub wakes : p.keep_alive ≡ false → p.waiting < p.job_queue.queue_sem
  pub finds : p.taking ≤ p.job_queue.number
  pub threads : p.testing + p.waiting + p.passed + p.taking + length p.running + p.ended ≡ p.number

pub start-IsSound : (memory : ℕ → Job) (number : ℤ) → IsSound [] [] (start memory number)
unfolding start
start-IsSound memory number = record {
  jobs = [];
  holds = record { number_is = refl; distinct = tt; ends = (refl, refl) };
  in_order = refl;
  posts = λ e. refl;
  wakes = λ e. cc;
  finds = omega arith;
  threads = omega arith;
}

-- The call of a new job changes no link.
pub set_function-Holds :
    (js : List ℕ) (q : ThreadJobQueue) (x function arg : ℕ)
    → Holds js q
    → Holds js (set_job q x (record (q.jobs x) { function = function; arg = arg }))
set_function-Holds [] q x function arg h = record {
  number_is = h.number_is;
  distinct = h.distinct;
  ends = h.ends;
}
set_function-Holds (a ∷ js) q x function arg h = record {
  number_is = h.number_is;
  distinct = h.distinct;
  ends = (
    h.ends.0,
    Links-prev q.jobs (assign q.jobs x (record (q.jobs x) { function = function; arg = arg })) a js
        q.head same h.ends.1,
  );
}
  where
    same :
        (j : ℕ)
        → (assign q.jobs x (record (q.jobs x) { function = function; arg = arg }) j).prev
          ≡ (q.jobs j).prev
    same j = elim (same-or-other x j) [
      | inl e ↦
          subst
            (λ k.
              (assign q.jobs x (record (q.jobs x) { function = function; arg = arg }) k).prev
              ≡ (q.jobs k).prev)
            (sym e)
            (ap (λ (j : Job). j.prev)
              (assign_self q.jobs x (record (q.jobs x) { function = function; arg = arg })))
      | inr ne ↦
          ap (λ (k : Job). k.prev)
            (assign_ne q.jobs x (record (q.jobs x) { function = function; arg = arg }) j ne)
    ]

-- A post or a wait changes the semaphore alone.
pub posted-Holds :
    (js : List ℕ) (q : ThreadJobQueue) (n : ℕ) → Holds js q → Holds js (record q { queue_sem = n })
posted-Holds js q n h = record { number_is = h.number_is; distinct = h.distinct; ends = h.ends }

-- Nor does it matter which jobs were freed.
pub freed-Holds :
    (js : List ℕ) (q : ThreadJobQueue) (freed : List ℕ)
    → Holds js q
    → Holds js (record q { freed = freed })
freed-Holds js q freed h = record { number_is = h.number_is; distinct = h.distinct; ends = h.ends }

pub sem_wait_lem :
    (q r : ThreadJobQueue)
    → sem_wait q ≡ some r
    → (q.queue_sem ≡ r.queue_sem + 1) × (r ≡ record q { queue_sem = r.queue_sem })
unfolding sem_wait
sem_wait_lem q r e = at q.queue_sem e
  where
    at :
        (n : ℕ)
        → elim n [ zero ↦ none | suc k ↦ some (record q { queue_sem = k }) ] ≡ some r
        → (n ≡ r.queue_sem + 1) × (r ≡ record q { queue_sem = r.queue_sem })
    at zero e = cc
    at (suc k) e =
        let same : record q { queue_sem = k } ≡ r = cc e in
        let size : k ≡ r.queue_sem = ap (λ (x : ThreadJobQueue). x.queue_sem) same in
        (omega arith, sym same ∙ ap (λ n. record q { queue_sem = n }) size)

pub some_job : (js : List ℕ) → 0 < length js → (a : ℕ) × (rest : List ℕ) × (js ≡ a ∷ rest)
some_job [] h = absurd (omega arith)
some_job (a ∷ js) h = (a, js, refl)
