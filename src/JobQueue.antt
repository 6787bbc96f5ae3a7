-- ===== src/JobQueue.antt =====
-- The job queue of v0.1/thread_pool.h and v0.1/thread_pool.cc: a doubly linked list under one lock,
-- counted by a semaphore. A job is known by its address.
pub mod Chain
pub mod Fifo
pub mod Pool
mod Tests
use reactor_server.Prelude.{
  ℕ, zero, suc, ◌+◌, ◌-◌, Bool, true, false, List, [], ◌∷◌, Option, none, some, ◌==◌, if◌then◌else◌,
  Run, ok, fault, out_of_fuel, ◌>>=◌, or_fault,
}
use reactor_server.Prelude.Memory.{assign}

-- thread_job_t.
pub record Job : Type 0 where
  pub function : ℕ
  pub arg : ℕ
  pub prev : Option ℕ
  pub next : Option ℕ

-- thread_job_queue, with the memory of the jobs and the jobs that were freed, the last one first.
pub record ThreadJobQueue : Type 0 where
  pub number : ℕ
  pub queue_sem : ℕ
  pub head : Option ℕ
  pub tail : Option ℕ
  pub jobs : ℕ → Job
  pub freed : List ℕ

-- threadPool_jobQueue_init, and `sem_init` with 0.
abbrev pub init : (ℕ → Job) → ThreadJobQueue
init jobs = record { number = 0; queue_sem = 0; head = none; tail = none; jobs = jobs; freed = [] }

abbrev pub set_job : ThreadJobQueue → ℕ → Job → ThreadJobQueue
set_job q i j = record q { jobs = assign q.jobs i j }

-- The `switch` of threadPool_jobQueue_add, behind `newJob->next = newJob->prev = NULL`.
pub link : ℕ → ℕ → ThreadJobQueue → Run ThreadJobQueue
link zero new_job q = ok (record q { head = some new_job; tail = some new_job })
link (suc n) new_job q = do
  h ← or_fault q.head
  let below = set_job q new_job (record (q.jobs new_job) { next = some h })
  let above = set_job below h (record (below.jobs h) { prev = some new_job })
  ok (record above { head = some new_job })

-- threadPool_jobQueue_add.
pub add : ThreadJobQueue → ℕ → Run ThreadJobQueue
add q new_job = do
  let bare = set_job q new_job (record (q.jobs new_job) { next = none; prev = none })
  linked ← link q.number new_job bare
  ok (record linked { number = q.number + 1; queue_sem = q.queue_sem + 1 })

-- The `switch` of threadPool_jobQueue_removeLast.
pub unlink : ℕ → ThreadJobQueue → Run ThreadJobQueue
unlink zero q = ok q
unlink (suc zero) q = ok (record q { head = none; tail = none })
unlink (suc (suc n)) q = do
  last ← or_fault q.tail
  p ← or_fault (q.jobs last).prev
  ok (record (set_job q p (record (q.jobs p) { next = none })) { tail = some p })

-- threadPool_jobQueue_removeLast; false where it returns -1.
pub remove_last : ThreadJobQueue → Run (ThreadJobQueue × Bool)
remove_last q =
    let removed : Run (ThreadJobQueue × Bool) = do
      r ← unlink q.number q
      ok (record r { number = q.number - 1 }, true)
    in if q.number == 0 then ok (q, false) else removed

-- threadPool_jobQueue_peek.
abbrev pub peek : ThreadJobQueue → Option ℕ
peek q = q.tail

-- What a thread does under the lock in threadPool_job_do once `sem_wait` let it pass: the address
-- of the job with its function and argument, or nothing where the thread ends.
pub take_job : ThreadJobQueue → Run (ThreadJobQueue × Option (ℕ × ℕ × ℕ))
take_job q = do
  job ← or_fault (peek q)
  (r, removed) ← remove_last q
  ok (r, if removed then some (job, (q.jobs job).function, (q.jobs job).arg) else none)

-- `sem_wait` returns while the semaphore is not 0.
pub sem_wait : ThreadJobQueue → Option ThreadJobQueue
sem_wait q = elim q.queue_sem [ zero ↦ none | suc n ↦ some (record q { queue_sem = n }) ]

-- The `while` of threadPool_jobQueue_empty, from the job `cur` on; it runs `number` times.
pub empty_loop : ℕ → Option ℕ → ThreadJobQueue → Run ThreadJobQueue
empty_loop zero cur q = ok q
empty_loop (suc n) cur q = do
  i ← or_fault cur
  empty_loop n (q.jobs i).prev
      (record q { tail = (q.jobs i).prev; freed = i ∷ q.freed; number = q.number - 1 })

pub empty : ThreadJobQueue → Run ThreadJobQueue
empty q = do r ← empty_loop q.number q.tail q; ok (record r { head = none; tail = none })
