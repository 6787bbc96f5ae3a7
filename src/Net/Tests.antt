-- ===== src/Net/Tests.antt =====
-- Runs of the event loop and of a connection at concrete inputs.
mod Connections
mod Servers
use reactor_server.Prelude.{
  ℕ, suc, ◌+◌, ◌≡◌, refl, inl, inr, true, false, List, [], ◌∷◌, ◌++◌, some, arith, ok, aborts,
  Returns, ◌==◌, ◌>>=◌, if◌then◌else◌,
}
use reactor_server.Net.Channel
use reactor_server.Net.Channel.{
  Channel, Events, cnew, cadded, read_event, edge_event, either, none_event, Callback, Callbacks,
  handle_event, is_writing,
}
use reactor_server.Net.Channel.Dispatch.{handle_event_lem, keep, wanted, in_order}
use reactor_server.Net.Poller
use reactor_server.Net.Poller.{
  Poller, EpollCtl, epoll_ctl_add, change, remove, poll, enable_read, disable_read, enable_write,
  disable_write, disable_all,
}
use reactor_server.Net.Poller.Registration.{Holds, new-Holds, next, next-Holds}
use reactor_server.Net.Poller.Changes.{Changed, change-Changed, interest_other}
use reactor_server.Net.Poller.Removal.{Removed, remove-Removed}
use reactor_server.Net.Poller.Ready.{Filled, poll-Filled}
use reactor_server.Net.Poller.Masks.{Interests, interests, disable_write-keeps}
use reactor_server.Net.Loop.{Eventfd, EventLoop, queue_in_loop, do_pending_functors}
use reactor_server.Net.Loop.Schedule.{at, polling, handling, queue_other, Steps, stay, step}
use reactor_server.Net.Loop.Fifo.{held, called-in_order}
use reactor_server.Net.Loop.Wakeup.{wakeup-silent}
use reactor_server.Net.Loop.Drain.{run_task, all_spawned, do_pending_functors-Steps}
use reactor_server.Net.ThreadPool
use reactor_server.Net.ThreadPool.{start, set_num_threads, take_loops}
use reactor_server.Net.ThreadPool.RoundRobin.{loops_from, start-take_loops}
use reactor_server.Prelude.Memory.{
  assign, assign_self, assign_ne, assign-same, assign-assign, same-or-other,
}

-- The descriptor of the channel at `i` is `i + 5`.
abbrev pub idle : Poller
idle = Poller.new (λ i. Channel.new (i + 5))

pub idle-Holds : Holds idle
idle-Holds = new-Holds (λ i. i + 5)

-- The channel at 0 asks for the events `e`.
abbrev asking : Events → Channel
asking e = record (Channel.new 5) { status = cadded; events = e }

abbrev add : Events → EpollCtl
add e = record { op = epoll_ctl_add; fd = 5; events = either edge_event e; channel = 0 }

abbrev pub added : Events → Poller
added e = next idle idle-Holds 0 (asking e) (some 0) (add e ∷ [])

pub added-Holds : (e : Events) → Holds (added e)
added-Holds e =
    next-Holds idle idle-Holds 0 (asking e) (some 0) (add e ∷ []) refl (inl refl) (inr refl)
      (λ fd ne. interest_other (add e) [] fd ne) (refl, tt) (λ e. absurd (ground (arith, e)))
      (refl, refl)

abbrev pub watched : Poller
watched = added read_event

abbrev silent : Poller
silent = added none_event

change-Changed_example :
    Returns (Changed idle 0 (either none_event read_event)) (enable_read idle 0)
change-Changed_example = change-Changed (λ e. either e read_event) idle 0 idle-Holds (λ e. refl)

remove-Removed_example : Returns (Removed silent 0) (remove silent 0)
unfolding assign
remove-Removed_example = remove-Removed silent 0 (added-Holds none_event) refl refl refl

abbrev all_set : Callbacks
all_set = record { has = λ cb. true }

handle_event_lem_example :
    handle_event all_set true (record (asking read_event) { rcv_events = read_event })
    ≡ keep (wanted all_set true (record (asking read_event) { rcv_events = read_event })) in_order
handle_event_lem_example =
    handle_event_lem all_set true (record (asking read_event) { rcv_events = read_event })

-- An eventfd that takes every write, and one that takes none of less than eight bytes.
abbrev taking : Eventfd
taking = record { write_to = λ n c. suc c; read_from = λ n c. 0 }

abbrev refusing : Eventfd
refusing = record { write_to = λ n c. c; read_from = λ n c. c }

abbrev waiting : EventLoop ℕ
waiting = record {
  quit = false;
  looping = true;
  calling_pending_functor = false;
  poller = idle;
  pending_functor = [];
  counter = 0;
}

one_queued :
    (eventfd : Eventfd)
    → Steps eventfd
        (at waiting polling)
        (7 ∷ [])
        []
        (at (queue_in_loop eventfd false 7 waiting) polling)
one_queued eventfd = step stay (queue_other 7)

called-in_order_example :
    held (at waiting polling) ++ 7 ∷ []
    ≡ [] ++ held (at (queue_in_loop taking false 7 waiting) polling)
called-in_order_example = called-in_order taking (one_queued taking)

-- The functor 7 queues the functor 8.
abbrev spawn : ℕ → List ℕ
spawn t = if t == 7 then 8 ∷ [] else []

abbrev pending : EventLoop ℕ
pending = record waiting { pending_functor = 7 ∷ 9 ∷ [] }

do_pending_functors-Steps_example :
    Returns
      (λ l.
        Steps taking
          (at pending handling)
          (all_spawned taking spawn (7 ∷ 9 ∷ []))
          (7 ∷ 9 ∷ [])
          (at l polling))
      (do_pending_functors (run_task taking spawn) pending)
do_pending_functors-Steps_example = do_pending_functors-Steps taking spawn pending

start-take_loops_example :
    Returns
      (λ p.
        (p.loops ≡ loops_from (λ i. i + 10) 3 0)
        × (take_loops 3 p ≡ ok (p, loops_from (λ i. i + 10) 3 0)))
      (start (λ i. i + 10) true false (set_num_threads (ThreadPool.new 1) 3))
start-take_loops_example = start-take_loops (λ i. i + 10) false 1 2
