-- ===== src/Net/Loop.antt =====
-- src/EventLoop.h and src/EventLoop.cc. A functor is a `Task`, and what running one does is a
-- parameter. Whether the caller is the loop's thread is an argument where any thread may call.
pub mod Schedule
pub mod Fifo
pub mod Wakeup
pub mod Drain
use reactor_server.Prelude.{
  ℕ, Bool, true, false, not, ◌&&◌, ◌||◌, List, [], ◌∷◌, ◌++◌, Option, none, some, if◌then◌else◌,
  Run, ok, aborts, out_of_fuel, ◌>>=◌, ◌>>◌, assert,
}
use reactor_server.Net.Channel
use reactor_server.Net.Channel.{Events, Callback, Callbacks, handle_event}
use reactor_server.Net.Poller
use reactor_server.Net.Poller.{Poller, poll}

-- The counter of an eventfd behind a `write` and a `read` of so many bytes.
pub record Eventfd : Type 0 where
  pub write_to : ℕ → ℕ → ℕ
  pub read_from : ℕ → ℕ → ℕ

pub record EventLoop (Task : Type 0) : Type 0 where
  pub quit : Bool
  pub looping : Bool
  pub calling_pending_functor : Bool
  pub poller : Poller
  pub pending_functor : List Task
  pub counter : ℕ

-- `sizeof(int)`.
abbrev int_size : ℕ
int_size = 4

module _ {Task : Type 0} (eventfd : Eventfd) where
  -- `write(wakeupFd, &one, sizeof(one))`.
  pub wakeup : EventLoop Task → EventLoop Task
  wakeup l = record l { counter = eventfd.write_to int_size l.counter }

  pub handle_read : EventLoop Task → EventLoop Task
  handle_read l = record l { counter = eventfd.read_from int_size l.counter }

  pub queue_in_loop : Bool → Task → EventLoop Task → EventLoop Task
  queue_in_loop in_loop func l =
      let pushed = record l { pending_functor = l.pending_functor ++ func ∷ [] } in
      if not in_loop || l.calling_pending_functor then wakeup pushed else pushed

  pub quit_loop : Bool → EventLoop Task → EventLoop Task
  quit_loop in_loop l = let told = record l { quit = true } in if in_loop then told else wakeup told

  pub run_in_loop :
      (Task → EventLoop Task → Run (EventLoop Task))
      → Bool
      → Task
      → EventLoop Task
      → Run (EventLoop Task)
  run_in_loop run in_loop func l = if in_loop then run func l else ok (queue_in_loop in_loop func l)

-- doPendingFunctors: the functors are taken out under the lock, and called without it.
pub take_pending : {Task : Type 0} → EventLoop Task → EventLoop Task
take_pending l = record l { pending_functor = []; calling_pending_functor = true }

pub finish_pending : {Task : Type 0} → EventLoop Task → EventLoop Task
finish_pending l = record l { calling_pending_functor = false }

module _ {Task : Type 0} (run : Task → EventLoop Task → Run (EventLoop Task)) where
  pub call_all : List Task → EventLoop Task → Run (EventLoop Task)
  call_all [] l = ok l
  call_all (func ∷ functors) l = run func l >>= call_all functors

  pub do_pending_functors : EventLoop Task → Run (EventLoop Task)
  do_pending_functors l = do
    called ← call_all l.pending_functor (take_pending l)
    ok (finish_pending called)

-- The callbacks of a channel: whether each is set, whether the tied owner lives, and what each does.
pub record Handlers (Task : Type 0) : Type 0 where
  pub callbacks : ℕ → Callbacks
  pub alive : ℕ → EventLoop Task → Bool
  pub call : ℕ → Callback → EventLoop Task → Run (EventLoop Task)

module _ {Task : Type 0} (run : Task → EventLoop Task → Run (EventLoop Task))
    (handlers : Handlers Task) where
  pub call_callbacks : ℕ → List Callback → EventLoop Task → Run (EventLoop Task)
  call_callbacks i [] l = ok l
  call_callbacks i (cb ∷ cbs) l = handlers.call i cb l >>= call_callbacks i cbs

  -- The `for` over the active channels.
  pub handle_active : List ℕ → EventLoop Task → Run (EventLoop Task)
  handle_active [] l = ok l
  handle_active (i ∷ active) l = do
    let current = record l { poller = record l.poller { current_active = some i } }
    handled ←
        call_callbacks i
          (handle_event (handlers.callbacks i) (handlers.alive i current)
            (current.poller.objects i))
          current
    handle_active active handled

  -- The body of the `while`, on what `epoll_wait` gave.
  pub turn : Option (List (ℕ × Events)) → EventLoop Task → Run (EventLoop Task)
  turn answer l = do
    (polled, active) ← poll (record l.poller { active_channels = [] }) answer
    let handling = record l {
      poller = record polled { active_channels = active; event_handling = true };
    }
    handled ← handle_active active handling
    let done = record handled {
      poller = record handled.poller { current_active = none; event_handling = false };
    }
    do_pending_functors run done

  -- The `while`, on the answers of `epoll_wait`.
  pub loop_while : List (Option (List (ℕ × Events))) → EventLoop Task → Run (EventLoop Task)
  loop_while [] l = if l.quit then ok l else out_of_fuel
  loop_while (answer ∷ answers) l =
      let next = turn answer l >>= loop_while answers in if l.quit then ok l else next

  pub loop : List (Option (List (ℕ × Events))) → EventLoop Task → Run (EventLoop Task)
  loop answers l = do
    assert (not l.looping)
    assert l.poller.in_loop_thread
    left ← loop_while answers (record l { looping = true; quit = false })
    ok (record left { looping = false; quit = true })
