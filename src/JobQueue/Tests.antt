-- ===== src/JobQueue/Tests.antt =====
-- Runs of the job queue at concrete inputs.
use reactor_server.Prelude.{ℕ, ◌≡◌, refl, true, List, [], ◌∷◌, ◌++◌, none, some, ok, arith, Returns}
use reactor_server.Prelude.Int.{pos}
use reactor_server.Prelude.Memory.{assign}
use reactor_server.JobQueue.{Job, ThreadJobQueue, init, add, link, take_job, sem_wait}
use reactor_server.JobQueue.Chain.{Holds}
use reactor_server.JobQueue.Fifo.{Taken}
use reactor_server.JobQueue.Pool.{
  ThreadPool, thread_number, start, add_work, Fresh, adds, enters, passes, goes_on, Steps, stay,
  step,
}
use reactor_server.JobQueue.Pool.Sound.{jobs-in_order, take_job-finds}

-- The job at `i` calls the function `i`. The job 4 was added first, then the job 7.
abbrev memory : ℕ → Job
memory i = record { function = i; arg = 0; prev = some 7; next = none }

abbrev two_jobs : ThreadJobQueue
two_jobs = record {
  number = 2;
  queue_sem = 2;
  head = some 7;
  tail = some 4;
  jobs = memory;
  freed = [];
}

two_jobs-Holds : Holds (4 ∷ 7 ∷ []) two_jobs
two_jobs-Holds = record {
  number_is = refl;
  distinct = ((λ e. ground (arith, e), tt), (tt, tt));
  ends = (refl, (refl, refl));
}

-- Two threads are started, the job 9 is added, and a thread is about to take it.
empty_start-Fresh : Fresh (init memory) 9
empty_start-Fresh [] h = tt
empty_start-Fresh (a ∷ js) h = absurd (omega (arith, h.number_is))

abbrev filled : ThreadJobQueue
filled = record {
  number = 1;
  queue_sem = 1;
  head = some 9;
  tail = some 9;
  jobs =
      assign (assign memory 9 (record { function = 3; arg = 4; prev = some 7; next = none })) 9
        (record { function = 3; arg = 4; prev = none; next = none });
  freed = [];
}

add_9 : add_work (init memory) 9 3 4 ≡ ok filled
unfolding add_work add link assign
add_9 = refl

abbrev pool : ℕ → ℕ → ℕ → ℕ → ThreadJobQueue → ThreadPool
pool testing waiting passed taking q = record {
  number = 2;
  job_queue = q;
  keep_alive = true;
  testing = testing;
  waiting = waiting;
  passed = passed;
  taking = taking;
  running = [];
  ended = 0;
}

abbrev consumed : ThreadJobQueue
consumed = record filled { queue_sem = 0 }

about_to_take : Steps (start memory (pos 2)) (9 ∷ []) [] (pool 1 0 0 1 consumed)
unfolding start thread_number sem_wait
about_to_take =
    step
      (step (step (step stay (adds 9 3 4 filled empty_start-Fresh add_9)) (enters 1 refl refl))
        (passes 0 consumed refl refl))
      (goes_on 0 refl refl)

jobs-in_order_example : (jobs : List ℕ) × Holds jobs consumed × (9 ∷ [] ≡ [] ++ jobs)
jobs-in_order_example =
    jobs-in_order memory (pos 2) (9 ∷ []) [] (pool 1 0 0 1 consumed) about_to_take

take_job-finds_example :
    (a : ℕ) × (rest : List ℕ) × (9 ∷ [] ≡ [] ++ a ∷ rest)
    × Returns (Taken a rest consumed) (take_job consumed)
take_job-finds_example =
    take_job-finds memory (pos 2) (9 ∷ []) [] (pool 1 0 0 1 consumed) about_to_take (omega arith)
