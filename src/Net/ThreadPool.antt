-- ===== src/Net/ThreadPool.antt =====
-- src/EventLoopThreadPool.h and src/EventLoopThreadPool.cc. A loop is known by its address, a
-- number; which loop the thread of an index starts is a parameter.
pub mod RoundRobin
pub mod Readiness
use reactor_server.Prelude.{
  ℕ, zero, suc, ◌+◌, ◌%◌, Bool, true, false, not, List, [], ◌∷◌, ◌++◌, length, get_elem?, Option,
  if◌then◌else◌, ◌==◌, ◌&&◌, Run, ok, ◌>>=◌, ◌>>◌, assert, or_fault,
}

-- `inits` are the loops on which the initialisation callback was called by `start` itself.
pub record EventLoopThreadPool : Type 0 where
  pub base_loop : ℕ
  pub next : ℕ
  pub num_threads : ℕ
  pub started : Bool
  pub loops : List ℕ
  pub inits : List ℕ

-- The constructor.
abbrev pub new : ℕ → EventLoopThreadPool
new base = record {
  base_loop = base;
  next = 0;
  num_threads = 0;
  started = false;
  loops = [];
  inits = [];
}

pub set_num_threads : EventLoopThreadPool → ℕ → EventLoopThreadPool
set_num_threads p num = record p { num_threads = num }

-- The `for` of start, from the index `i` on, with `left` threads to start.
pub start_threads : (ℕ → ℕ) → ℕ → ℕ → EventLoopThreadPool → EventLoopThreadPool
start_threads start_loop zero i p = p
start_threads start_loop (suc left) i p =
    start_threads start_loop left (suc i) (record p { loops = p.loops ++ start_loop i ∷ [] })

-- start; `in_loop` is `baseLoop_->isInLoopThread()`, `has_cb` whether there is a callback.
pub start : (ℕ → ℕ) → Bool → Bool → EventLoopThreadPool → Run EventLoopThreadPool
start start_loop in_loop has_cb p = do
  assert (not p.started)
  assert in_loop
  let q = start_threads start_loop p.num_threads 0 (record p { started = true })
  ok (if p.num_threads == 0 && has_cb then record q { inits = q.inits ++ q.base_loop ∷ [] } else q)

-- The choice of getNextLoop.
pub next_of : List ℕ → EventLoopThreadPool → Run (EventLoopThreadPool × ℕ)
next_of [] p = ok (p, p.base_loop)
next_of (l ∷ ls) p = do
  loop ← or_fault (get_elem? (l ∷ ls) p.next)
  ok (record p { next = (p.next + 1) % length (l ∷ ls) }, loop)

pub get_next_loop : Bool → EventLoopThreadPool → Run (EventLoopThreadPool × ℕ)
get_next_loop in_loop p = do assert in_loop; assert p.started; next_of p.loops p

-- Some calls of getNextLoop, as newConnection makes them.
pub take_loops : ℕ → EventLoopThreadPool → Run (EventLoopThreadPool × List ℕ)
take_loops zero p = ok (p, [])
take_loops (suc n) p = do
  (q, loop) ← get_next_loop true p
  (r, loops) ← take_loops n q
  ok (r, loop ∷ loops)
