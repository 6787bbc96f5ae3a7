-- ===== src/Net/Channel.antt =====
-- src/Channel.h and src/Channel.cc: a file descriptor, the events asked for, and the callbacks. The
-- operations that go on to the poller are in Net/Poller.antt.
pub mod Dispatch
use reactor_server.Prelude.{
  ℕ, Bool, true, false, not, ◌&&◌, ◌||◌, List, [], ◌∷◌, ◌++◌, if◌then◌else◌,
}

-- The bits EPOLLIN, EPOLLPRI, EPOLLOUT, EPOLLERR, EPOLLHUP and EPOLLET of a mask.
pub record Events : Type 0 where
  pub input : Bool
  pub priority : Bool
  pub output : Bool
  pub error : Bool
  pub hang_up : Bool
  pub edge : Bool

-- `a | b`, `a & b` and `~a`.
abbrev pub either : Events → Events → Events
either a b = record {
  input = a.input || b.input;
  priority = a.priority || b.priority;
  output = a.output || b.output;
  error = a.error || b.error;
  hang_up = a.hang_up || b.hang_up;
  edge = a.edge || b.edge;
}

abbrev pub both : Events → Events → Events
both a b = record {
  input = a.input && b.input;
  priority = a.priority && b.priority;
  output = a.output && b.output;
  error = a.error && b.error;
  hang_up = a.hang_up && b.hang_up;
  edge = a.edge && b.edge;
}

abbrev pub other_than : Events → Events
other_than a = record {
  input = not a.input;
  priority = not a.priority;
  output = not a.output;
  error = not a.error;
  hang_up = not a.hang_up;
  edge = not a.edge;
}

-- The mask as a truth value.
abbrev pub some_event : Events → Bool
some_event a = a.input || (a.priority || (a.output || (a.error || (a.hang_up || a.edge))))

abbrev pub none_event : Events
none_event = record {
  input = false;
  priority = false;
  output = false;
  error = false;
  hang_up = false;
  edge = false;
}

abbrev pub read_event : Events
read_event = record none_event { input = true; priority = true; hang_up = true; edge = true }

abbrev pub write_event : Events
write_event = record none_event { output = true }

abbrev pub edge_event : Events
edge_event = record none_event { edge = true }

-- CNew, CAdded and CDeleted of src/EpollPoller.h, which `status_` holds.
pub data Status : Type 0 where
  cnew cadded cdeleted : Status

pub record Channel : Type 0 where
  pub fd : ℕ
  pub status : Status
  pub events : Events
  pub rcv_events : Events
  pub tied : Bool
  pub log_hup : Bool
  pub add_to_loop : Bool
  pub event_handling : Bool

-- The constructor.
abbrev pub new : ℕ → Channel
new fd = record {
  fd = fd;
  status = cnew;
  events = none_event;
  rcv_events = none_event;
  tied = false;
  log_hup = true;
  add_to_loop = false;
  event_handling = false;
}

abbrev pub is_reading : Channel → Bool
is_reading c = some_event (both c.events read_event)

abbrev pub is_writing : Channel → Bool
is_writing c = some_event (both c.events write_event)

abbrev pub is_non_event : Channel → Bool
is_non_event c = not (some_event c.events)

-- `setEvents`, which sets the received events.
abbrev pub set_events : Channel → Events → Channel
set_events c e = record c { rcv_events = e }

-- The callbacks.
pub data Callback : Type 0 where
  close_cb error_cb read_cb write_cb : Callback

-- Whether a callback is set.
pub record Callbacks : Type 0 where
  pub has : Callback → Bool

abbrev call_if : Callbacks → Callback → Bool → List Callback
call_if cbs cb test = if test && cbs.has cb then cb ∷ [] else []

-- handleEventWithGuard: the callbacks called, in order.
pub handle_event_with_guard : Callbacks → Channel → List Callback
handle_event_with_guard cbs c =
    let e = c.rcv_events in
    call_if cbs close_cb e.hang_up
    ++ (call_if cbs error_cb e.error
        ++ (call_if cbs read_cb (e.input || e.priority) ++ call_if cbs write_cb e.output))

-- handleEvent; `alive` is whether the object that `tie_` points to still exists.
pub handle_event : Callbacks → Bool → Channel → List Callback
handle_event cbs alive c =
    if c.tied
    then if alive then handle_event_with_guard cbs c else []
    else handle_event_with_guard cbs c
