-- ===== src/JobQueue/Pool.antt =====
-- The threads of v0.1/thread_pool.cc that take jobs off the queue. Threads differ only in where they
-- stand in threadPool_job_do, so a state counts those at each place; the lock makes each access to
-- the queue one step.
pub mod Invariant
pub mod Sound
use reactor_server.Prelude.{
  ℕ, zero, suc, ◌+◌, ◌≡◌, ◌≢◌, Bool, true, false, List, [], ◌∷◌, ◌++◌, Option, none, some, All, ltb,
  if◌then◌else◌, Run, ok,
}
use reactor_server.Prelude.Int.{ℤ, pos, negsuc, ltb_ℤ, pos_part}
use reactor_server.JobQueue.{Job, ThreadJobQueue, init, add, take_job, sem_wait, empty, set_job}
use reactor_server.JobQueue.Chain.{Holds}

-- How many threads threadPool_init starts.
unfoldable pub thread_number : ℤ → ℕ
thread_number number =
    let at_least_one = if ltb_ℤ number (pos 1) then pos 20 else number in
    if ltb_ℤ (pos 50) at_least_one then 50 else pos_part at_least_one

-- threadPool_t with its threads: in front of the test of the `while`, of sem_wait, of the second
-- test of `threadPool_keepAlive` and of the lock, with the jobs that run, and at the end.
pub record ThreadPool : Type 0 where
  pub number : ℕ
  pub job_queue : ThreadJobQueue
  pub keep_alive : Bool
  pub testing : ℕ
  pub waiting : ℕ
  pub passed : ℕ
  pub taking : ℕ
  pub running : List ℕ
  pub ended : ℕ

-- threadPool_init.
unfoldable pub start : (ℕ → Job) → ℤ → ThreadPool
start jobs number = record {
  number = thread_number number;
  job_queue = init jobs;
  keep_alive = true;
  testing = thread_number number;
  waiting = 0;
  passed = 0;
  taking = 0;
  running = [];
  ended = 0;
}

-- threadPool_add_work, with the address that `malloc` gives.
unfoldable pub add_work : ThreadJobQueue → ℕ → ℕ → ℕ → Run ThreadJobQueue
add_work q new_job function arg =
    add (set_job q new_job (record (q.jobs new_job) { function = function; arg = arg })) new_job

-- The posts of threadPool_destroy: one for each thread, and one more.
unfoldable pub post_all : ThreadPool → ThreadPool
post_all p = record p {
  keep_alive = false;
  job_queue = record p.job_queue { queue_sem = p.job_queue.queue_sem + p.number + 1 };
}

-- `malloc` gives no job that is in the queue.
abbrev pub Fresh : ThreadJobQueue → ℕ → Type 0
Fresh q x = (js : List ℕ) → Holds js q → All (λ b. b ≢ x) js

-- A step, with the jobs that it adds and those that it takes.
pub data Step (p : ThreadPool) : List ℕ → List ℕ → ThreadPool → Type 0 where
  adds :
      (x function arg : ℕ) (q : ThreadJobQueue)
      → Fresh p.job_queue x
      → add_work p.job_queue x function arg ≡ ok q
      → Step p (x ∷ []) [] (record p { job_queue = q })
  leaves :
      (n : ℕ)
      → p.testing ≡ suc n
      → p.keep_alive ≡ false
      → Step p [] [] (record p { testing = n; ended = p.ended + 1 })
  enters :
      (n : ℕ)
      → p.testing ≡ suc n
      → p.keep_alive ≡ true
      → Step p [] [] (record p { testing = n; waiting = p.waiting + 1 })
  passes :
      (n : ℕ) (q : ThreadJobQueue)
      → p.waiting ≡ suc n
      → sem_wait p.job_queue ≡ some q
      → Step p [] [] (record p { job_queue = q; waiting = n; passed = p.passed + 1 })
  goes_on :
      (n : ℕ)
      → p.passed ≡ suc n
      → p.keep_alive ≡ true
      → Step p [] [] (record p { passed = n; taking = p.taking + 1 })
  turns_back :
      (n : ℕ)
      → p.passed ≡ suc n
      → p.keep_alive ≡ false
      → Step p [] [] (record p { passed = n; testing = p.testing + 1 })
  takes :
      (n job function arg : ℕ) (q : ThreadJobQueue)
      → p.taking ≡ suc n
      → take_job p.job_queue ≡ ok (q, some (job, function, arg))
      → Step p [] (job ∷ []) (record p { job_queue = q; taking = n; running = job ∷ p.running })
  returns_early :
      (n : ℕ) (q : ThreadJobQueue)
      → p.taking ≡ suc n
      → take_job p.job_queue ≡ ok (q, none)
      → Step p [] [] (record p { job_queue = q; taking = n; ended = p.ended + 1 })
  finishes :
      (before after : List ℕ) (job : ℕ)
      → p.running ≡ before ++ job ∷ after
      → Step p [] [] (record p {
        running = before ++ after;
        job_queue = record p.job_queue { freed = job ∷ p.job_queue.freed };
        testing = p.testing + 1;
      })
  destroys : Step p [] [] (post_all p)

-- A run, with all that was added and taken, in order.
pub data Steps (s : ThreadPool) : List ℕ → List ℕ → ThreadPool → Type 0 where
  stay : Steps s [] [] s
  step :
      {t u : ThreadPool} {added taken added' taken' : List ℕ}
      → Steps s added taken t
      → Step t added' taken' u
      → Steps s (added ++ added') (taken ++ taken') u
