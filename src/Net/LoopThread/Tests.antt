-- ===== src/Net/LoopThread/Tests.antt =====
-- Runs of startLoop at concrete inputs.
use reactor_server.Prelude.{ℕ, ◌≡◌, refl, true, false, some, arith}
use reactor_server.Prelude.Int.{pos}
use reactor_server.Net.LoopThread.{
  CountDownLatch, wait, count_down, Caller, at_latch, at_lock, sleeping, returned, Worker, fresh,
  preparing, looping, EventLoopThread, new, start, pass_latch, run_in_thread, publish, look,
  return_loop, starts, passes, runs, publishes, looks, returns_loop, Steps, stay, step,
}
use reactor_server.Net.LoopThread.Handshake.{start_loop-looping, Wakes, wait-Wakes}

-- The thread 7 was created and has counted the latch down; its loop lies at 100.
abbrev at : CountDownLatch → Caller → Worker → EventLoopThread
at latch caller worker = record (new true) {
  thread = record { joined = false; started = true; tid = 7; latch = latch };
  caller = caller;
  worker = worker;
}

abbrev closed : CountDownLatch
closed = record { count = pos 1; sleeps = false }

abbrev opened : CountDownLatch
opened = record { count = pos 0; sleeps = false }

abbrev waiting : EventLoopThread
waiting = at opened sleeping preparing

abbrev done : EventLoopThread
done = record (at opened (returned (some 100)) looping) { loop = some 100; called = true }

start-waiting : Steps (new true) waiting
unfolding start run_in_thread count_down pass_latch wait look
start-waiting =
    step
      (step
        (step
          (step stay (
            starts true
              (record (at closed at_latch fresh) {
                thread = record { joined = false; started = true; tid = 0; latch = closed };
              })
              refl refl))
          (runs 7 (omega arith) refl))
        (passes (at opened at_lock preparing) refl refl refl))
      (looks refl)

start-done : Steps (new true) done
unfolding publish look return_loop
start-done = step (step (step start-waiting (publishes 100 refl)) (looks refl)) (returns_loop refl)

start_loop-looping_example :
    (loop : ℕ) × (some 100 ≡ some loop) × (done.loop ≡ some loop) × (done.called ≡ done.thread_cb)
start_loop-looping_example = start_loop-looping true done (some 100) start-done refl refl

wait-Wakes_example : Wakes waiting
wait-Wakes_example = wait-Wakes true waiting start-waiting refl refl (λ e. cc)
