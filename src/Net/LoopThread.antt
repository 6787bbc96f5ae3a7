-- ===== src/Net/LoopThread.antt =====
-- src/EventLoopThread, with the parts of src/Thread and src/Mutex that it stands on: the thread that
-- calls startLoop and the one that it creates. A critical section is one step; `wait` gives the
-- lock back, and may also end by itself.
pub mod Invariant
pub mod Calls
pub mod Handshake
mod Tests
use reactor_server.Prelude.{
  ℕ, zero, suc, ◌+◌, ◌<◌, ◌≡◌, Bool, true, false, not, ◌&&◌, Option, none, some, ltb, ◌==◌,
  if◌then◌else◌, Run, ok, assert, ◌>>=◌, ◌>>◌,
}
use reactor_server.Prelude.Int.{ℤ, pos, negsuc, leb_ℤ}

-- CountDownLatch, and whether a thread sleeps in its `wait`.
pub record CountDownLatch : Type 0 where
  pub count : ℤ
  pub sleeps : Bool

-- A thread that stands in `wait` looks at the count: false where it may go on.
pub wait : CountDownLatch → CountDownLatch
wait l = record l { sleeps = not (leb_ℤ l.count (pos 0)) }

abbrev pub pred : ℤ → ℤ
pred (pos zero) = negsuc 0
pred (pos (suc n)) = pos n
pred (negsuc n) = negsuc (suc n)

abbrev pub is_zero : ℤ → Bool
is_zero (pos n) = n == 0
is_zero (negsuc n) = false

-- countDown.
pub count_down : CountDownLatch → CountDownLatch
count_down l =
    let n = pred l.count in record l { count = n; sleeps = if is_zero n then false else l.sleeps }

-- Thread.
pub record Thread : Type 0 where
  pub joined : Bool
  pub started : Bool
  pub tid : ℕ
  pub latch : CountDownLatch

abbrev pub new_thread : Thread
new_thread = record {
  joined = false;
  started = false;
  tid = 0;
  latch = record { count = pos 1; sleeps = false };
}

-- The thread that calls startLoop: it has not called it, waits for the latch in Thread::start, is
-- about to take the lock, sleeps on the condition, has left the `while`, or has returned `loop_`.
pub data Caller : Type 0 where
  idle at_latch at_lock sleeping leaving : Caller
  returned : Option ℕ → Caller

-- The thread that is created: there is none, it is in front of countDown, in front of the lock in
-- threadFunc, in its loop, or has ended.
pub data Worker : Type 0 where
  absent fresh preparing looping ended : Worker

-- EventLoopThread with its two threads; `thread_cb` is whether `threadCB_` is set and `called`
-- whether it was called.
pub record EventLoopThread : Type 0 where
  pub loop : Option ℕ
  pub thread : Thread
  pub exiting : Bool
  pub thread_cb : Bool
  pub called : Bool
  pub caller : Caller
  pub worker : Worker

abbrev pub new : Bool → EventLoopThread
new thread_cb = record {
  loop = none;
  thread = new_thread;
  exiting = false;
  thread_cb = thread_cb;
  called = false;
  caller = idle;
  worker = absent;
}

-- startLoop up to the latch; `created` is whether pthread_create succeeds.
pub start : Bool → EventLoopThread → Run EventLoopThread
start true t =
    assert (not t.thread.started)
    >> ok (record t {
      thread = record t.thread { started = true };
      caller = at_latch;
      worker = fresh;
    })
start false t =
    assert (not t.thread.started)
    >> ok (record t { thread = record t.thread { started = false }; caller = at_lock })

-- A look at the latch, and what Thread::start asserts behind it.
pub pass_latch : EventLoopThread → Run EventLoopThread
pass_latch t =
    let seen = record t { thread = record t.thread { latch = wait t.thread.latch } } in
    let passed = assert (ltb 0 t.thread.tid) >> ok (record seen { caller = at_lock }) in
    if (wait t.thread.latch).sleeps then ok seen else passed

-- runInThread up to `func_`, in a thread with the number `tid`.
pub run_in_thread : ℕ → EventLoopThread → EventLoopThread
run_in_thread tid t = record t {
  thread = record t.thread { tid = tid; latch = count_down t.thread.latch };
  worker = preparing;
}

abbrev pub notified : Caller → Caller
notified sleeping = at_lock
notified c = c

-- threadFunc up to its loop, which lies at the address `loop`.
pub publish : ℕ → EventLoopThread → EventLoopThread
publish loop t = record t {
  loop = some loop;
  called = t.thread_cb;
  caller = notified t.caller;
  worker = looping;
}

-- The end of threadFunc.
pub end_loop : EventLoopThread → EventLoopThread
end_loop t = record t { loop = none; worker = ended }

abbrev pub after_look : Option ℕ → Caller
after_look none = sleeping
after_look (some loop) = leaving

-- A look at `loop_` under the lock in startLoop, and the return behind it.
pub look : EventLoopThread → EventLoopThread
look t = record t { caller = after_look t.loop }

pub return_loop : EventLoopThread → EventLoopThread
return_loop t = record t { caller = returned t.loop }

-- Thread::join.
pub join : Thread → Run Thread
join t = assert t.started >> assert (not t.joined) >> ok (record t { joined = true })

-- The destructor on the value of `loop_`: whether it calls `quit` of the loop and waits for the
-- thread.
pub destroy_at : EventLoopThread → Option ℕ → Run (EventLoopThread × Bool)
destroy_at t none = ok (t, false)
destroy_at t (some loop) = do thread ← join t.thread; ok (record t { thread = thread }, true)

pub destroy : EventLoopThread → Run (EventLoopThread × Bool)
destroy t = destroy_at (record t { exiting = true }) t.loop

-- The steps of the two threads.
pub data Step (t : EventLoopThread) : EventLoopThread → Type 0 where
  starts :
      (created : Bool) (u : EventLoopThread) → t.caller ≡ idle → start created t ≡ ok u → Step t u
  passes :
      (u : EventLoopThread)
      → t.caller ≡ at_latch
      → t.thread.latch.sleeps ≡ false
      → pass_latch t ≡ ok u
      → Step t u
  runs : (tid : ℕ) → 0 < tid → t.worker ≡ fresh → Step t (run_in_thread tid t)
  publishes : (loop : ℕ) → t.worker ≡ preparing → Step t (publish loop t)
  looks : t.caller ≡ at_lock → Step t (look t)
  returns_loop : t.caller ≡ leaving → Step t (return_loop t)
  ends : t.worker ≡ looping → Step t (end_loop t)
  wakes_latch :
      t.caller ≡ at_latch
      → Step t (record t {
        thread = record t.thread { latch = record t.thread.latch { sleeps = false } };
      })
  wakes : t.caller ≡ sleeping → Step t (record t { caller = at_lock })

pub data Steps (t : EventLoopThread) : EventLoopThread → Type 0 where
  stay : Steps t t
  step : {u w : EventLoopThread} → Steps t u → Step u w → Steps t w
