-- ===== src/JobQueue/Pool/Sound.antt =====
-- What holds in every state that the threads reach.
use reactor_server.Prelude.{
  ℕ, suc, ◌+◌, ◌-◌, ◌≤◌, ◌<◌, ◌≡◌, sym, ap, ◌∙◌, subst, true, false, List, [], ◌∷◌, ◌++◌, none,
  some, append-nil, append_assoc, length, length-append, arith, ok, Returns, Returns-value,
}
use reactor_server.Prelude.Int.{ℤ}
use reactor_server.JobQueue.{Job, ThreadJobQueue, take_job, sem_wait, set_job}
use reactor_server.JobQueue.Chain.{Holds}
use reactor_server.JobQueue.Fifo.{add-Added, Taken, take_job-Taken}
use reactor_server.JobQueue.Pool.{
  ThreadPool, start, add_work, post_all, Fresh, Step, adds, leaves, enters, passes, goes_on,
  turns_back, takes, returns_early, finishes, destroys, Steps, stay, step,
}
use reactor_server.JobQueue.Pool.Invariant.{
  IsSound, start-IsSound, set_function-Holds, posted-Holds, freed-Holds, sem_wait_lem, some_job,
}

module _ {added taken : List ℕ} {p : ThreadPool} (s : IsSound added taken p) where
  adds-IsSound :
      (x function arg : ℕ) (q : ThreadJobQueue)
      → Fresh p.job_queue x
      → add_work p.job_queue x function arg ≡ ok q
      → IsSound (added ++ x ∷ []) (taken ++ []) (record p { job_queue = q })
  unfolding add_work
  adds-IsSound x function arg q fresh e =
      let d =
        set_job p.job_queue x (record (p.job_queue.jobs x) { function = function; arg = arg }) in
      let kept = set_function-Holds s.jobs p.job_queue x function arg s.holds in
      let r = Returns-value q (add-Added s.jobs d x kept (fresh s.jobs s.holds)) e in
      let old = s.holds.number_is in
      let new = r.holds.number_is in
      let grown = length-append s.jobs (x ∷ []) in
      record {
        jobs = s.jobs ++ x ∷ [];
        holds = r.holds;
        in_order = rw (s.in_order, append-nil taken) (append_assoc taken s.jobs (x ∷ []));
        posts = λ alive. omega (arith, s.posts alive, old, new, grown, r.posted);
        wakes = λ dead. omega (arith, s.wakes dead, r.posted);
        finds = omega (arith, s.finds, old, new, grown);
        threads = s.threads;
      }

  -- A step that adds and takes nothing.
  module _ (t : ThreadPool) (same : Holds s.jobs t.job_queue)
      (posts : t.keep_alive ≡ true
        → t.job_queue.queue_sem + t.passed + t.taking ≡ t.job_queue.number)
      (wakes : t.keep_alive ≡ false → t.waiting < t.job_queue.queue_sem)
      (finds : t.taking ≤ t.job_queue.number)
      (threads : t.testing + t.waiting + t.passed + t.taking + length t.running + t.ended
        ≡ t.number) where
    quiet : IsSound (added ++ []) (taken ++ []) t
    quiet = record {
      jobs = s.jobs;
      holds = same;
      in_order = rw (append-nil added, append-nil taken) s.in_order;
      posts = posts;
      wakes = wakes;
      finds = finds;
      threads = threads;
    }

  -- A thread that is to take a job gets the oldest one.
  pub finds_job :
      (n : ℕ)
      → p.taking ≡ suc n
      → (a : ℕ) × (rest : List ℕ) × (s.jobs ≡ a ∷ rest)
        × Returns (Taken a rest p.job_queue) (take_job p.job_queue)
  finds_job n e =
      let (a, rest, is) = some_job s.jobs (omega (arith, s.finds, s.holds.number_is)) in
      (
        a,
        rest,
        is,
        take_job-Taken a rest p.job_queue (subst (λ js. Holds js p.job_queue) is s.holds),
      )

  takes-IsSound :
      (n job function arg : ℕ) (q : ThreadJobQueue)
      → p.taking ≡ suc n
      → take_job p.job_queue ≡ ok (q, some (job, function, arg))
      → IsSound
          (added ++ [])
          (taken ++ job ∷ [])
          (record p { job_queue = q; taking = n; running = job ∷ p.running })
  takes-IsSound n job function arg q e f =
      let (a, rest, is, took) = finds_job n e in
      let r = Returns-value (q, some (job, function, arg)) took f in
      let same : job ≡ a = ground (arith, r.job_is) in
      let size : length s.jobs ≡ suc (length rest) = ap length is in
      let old = s.holds.number_is in
      let new = r.holds.number_is in
      record {
        jobs = rest;
        holds = r.holds;
        in_order =
            rw (append-nil added, s.in_order, is, same) (sym (append_assoc taken (a ∷ []) rest));
        posts = λ alive. omega (arith, s.posts alive, old, new, size, r.sem_kept);
        wakes = λ dead. omega (arith, s.wakes dead, r.sem_kept);
        finds = omega (arith, s.finds, old, new, size);
        threads = omega (arith, s.threads);
      }

  never_early :
      (n : ℕ) (q : ThreadJobQueue) → p.taking ≡ suc n → take_job p.job_queue ≡ ok (q, none) → ⊥
  never_early n q e f =
      let (a, rest, is, took) = finds_job n e in
      let r = Returns-value (q, none) took f in cc (r.job_is)

  passes-IsSound :
      (n : ℕ) (q : ThreadJobQueue)
      → p.waiting ≡ suc n
      → sem_wait p.job_queue ≡ some q
      → IsSound
          (added ++ [])
          (taken ++ [])
          (record p { job_queue = q; waiting = n; passed = p.passed + 1 })
  passes-IsSound n q e f =
      let w = sem_wait_lem p.job_queue q f in
      let same_number : q.number ≡ p.job_queue.number = ap (λ (r : ThreadJobQueue). r.number) w.1 in
      quiet (record p { job_queue = q; waiting = n; passed = p.passed + 1 })
        (subst (Holds s.jobs) (sym w.1) (posted-Holds s.jobs p.job_queue q.queue_sem s.holds))
        (λ alive. omega (arith, s.posts alive, w.0)) (λ dead. omega (arith, s.wakes dead, w.0))
        (omega (arith, s.finds)) (omega (arith, s.threads))

Step-IsSound :
    {added taken added' taken' : List ℕ} {p q : ThreadPool}
    → IsSound added taken p
    → Step p added' taken' q
    → IsSound (added ++ added') (taken ++ taken') q
unfolding post_all
Step-IsSound s (adds x function arg q fresh e) = adds-IsSound s x function arg q fresh e
Step-IsSound s (leaves n e dead) =
    quiet s _ s.holds (λ alive. s.posts alive) (λ d. s.wakes d) s.finds (omega (arith, s.threads))
Step-IsSound s (enters n e alive) =
    quiet s _ s.holds (λ a. s.posts a) (λ dead. absurd (ground (arith, alive, dead))) s.finds
      (omega (arith, s.threads))
Step-IsSound s (passes n q e f) = passes-IsSound s n q e f
Step-IsSound s (goes_on n e alive) =
    quiet s _ s.holds (λ a. omega (arith, s.posts a)) (λ d. s.wakes d)
      (omega (arith, s.posts alive)) (omega (arith, s.threads))
Step-IsSound s (turns_back n e dead) =
    quiet s _ s.holds (λ alive. absurd (ground (arith, alive, dead))) (λ d. s.wakes d) s.finds
      (omega (arith, s.threads))
Step-IsSound s (takes n job function arg q e f) = takes-IsSound s n job function arg q e f
Step-IsSound s (returns_early n q e f) = absurd (never_early s n q e f)
Step-IsSound {p = p} s (finishes before after job e) =
    let size = ap length e in
    let whole = length-append before (job ∷ after) in
    let rest = length-append before after in
    quiet s _ (freed-Holds s.jobs p.job_queue (job ∷ p.job_queue.freed) s.holds) (λ a. s.posts a)
      (λ d. s.wakes d) s.finds (omega (arith, s.threads, size, whole, rest))
Step-IsSound {p = p} s destroys =
    quiet s (post_all p)
      (posted-Holds s.jobs p.job_queue (p.job_queue.queue_sem + p.number + 1) s.holds) (λ alive. cc)
      (λ d. omega (arith, s.threads)) s.finds s.threads

pub Steps-IsSound :
    (memory : ℕ → Job) (number : ℤ) {added taken : List ℕ} {p : ThreadPool}
    → Steps (start memory number) added taken p
    → IsSound added taken p
Steps-IsSound memory number stay = start-IsSound memory number
Steps-IsSound memory number (step before last) =
    Step-IsSound (Steps-IsSound memory number before) last

-- Whatever the threads of a started pool do and in whichever order, if malloc gives no job that is
-- in the queue: the queue is well linked, and the jobs that were added are those that were taken,
-- in the order in which they were taken, followed by those in the queue, the oldest first.
pub jobs-in_order :
    (memory : ℕ → Job) (number : ℤ) (added taken : List ℕ) (p : ThreadPool)
    → Steps (start memory number) added taken p
    → (jobs : List ℕ) × Holds jobs p.job_queue × (added ≡ taken ++ jobs)
jobs-in_order memory number added taken p run =
    let s = Steps-IsSound memory number run in (s.jobs, s.holds, s.in_order)

-- In every state that the threads of a started pool reach, a thread that is about to take a job
-- gets the oldest of the jobs that were added and not taken, with a queue of the others left
-- behind; it dereferences no null pointer.
pub take_job-finds :
    (memory : ℕ → Job) (number : ℤ) (added taken : List ℕ) (p : ThreadPool)
    → Steps (start memory number) added taken p
    → 0 < p.taking
    → (a : ℕ) × (rest : List ℕ) × (added ≡ taken ++ a ∷ rest)
      × Returns (Taken a rest p.job_queue) (take_job p.job_queue)
take_job-finds memory number added taken p run some_taking =
    let s = Steps-IsSound memory number run in
    let (a, rest, is, took) = finds_job s (p.taking - 1) (omega arith) in
    (a, rest, s.in_order ∙ ap (λ js. taken ++ js) is, took)
