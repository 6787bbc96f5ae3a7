-- ===== src/Net/Poller.antt =====
-- src/EpollPoller.h and src/EpollPoller.cc, with the operations of src/Channel that register a
-- channel. A channel is known by its address, a number; `calls` are the calls of `epoll_ctl`, the
-- last one first.
pub mod Interest
pub mod Registration
pub mod Changes
pub mod Removal
pub mod Ready
pub mod Masks
use reactor_server.Prelude.{
  ℕ, zero, suc, ◌+◌, ◌*◌, Bool, true, false, not, ◌&&◌, ◌||◌, List, [], ◌∷◌, ◌++◌, Option, none,
  some, ◌==◌, ltb, if◌then◌else◌, Run, ok, aborts, ◌>>=◌, ◌>>◌, assert,
}
use reactor_server.Net.Channel.{
  Events, either, both, other_than, none_event, read_event, write_event, edge_event, Status, cnew,
  cadded, cdeleted, Channel, is_non_event, set_events,
}
use reactor_server.Prelude.Memory.{
  assign, assign_self, assign_ne, assign-same, assign-assign, same-or-other,
}

pub data EpollOp : Type 0 where
  epoll_ctl_add epoll_ctl_mod epoll_ctl_del : EpollOp

pub record EpollCtl : Type 0 where
  pub op : EpollOp
  pub fd : ℕ
  pub events : Events
  pub channel : ℕ

-- The poller, the channels of its loop, and what the loop's updateChannel and removeChannel look at:
-- `isInLoopThread()`, `eventHandling_`, `currentActiveChannel` and `activeChannels_`.
pub record Poller : Type 0 where
  pub channels : ℕ → Option ℕ
  pub objects : ℕ → Channel
  pub event_vec_size : ℕ
  pub calls : List EpollCtl
  pub in_loop_thread : Bool
  pub event_handling : Bool
  pub current_active : Option ℕ
  pub active_channels : List ℕ

-- The constructor, on the channels that exist.
abbrev pub new : (ℕ → Channel) → Poller
new objects = record {
  channels = λ fd. none;
  objects = objects;
  event_vec_size = 16;
  calls = [];
  in_loop_thread = true;
  event_handling = false;
  current_active = none;
  active_channels = [];
}

abbrev pub set_channel : Poller → ℕ → Channel → Poller
set_channel p i c = record p { objects = assign p.objects i c }

abbrev pub set_status : Poller → ℕ → Status → Poller
set_status p i s = set_channel p i (record (p.objects i) { status = s })

-- update(op, channel).
abbrev pub update : Poller → EpollOp → ℕ → Poller
update p op i = record p {
  calls =
      record {
        op = op;
        fd = (p.objects i).fd;
        events = either edge_event (p.objects i).events;
        channel = i;
      }
      ∷ p.calls;
}

abbrev pub is_none : Option ℕ → Bool
is_none none = true
is_none (some i) = false

abbrev pub is_at : Option ℕ → ℕ → Bool
is_at none i = false
is_at (some j) i = j == i

-- updateChannel, where the status is CNew, CDeleted, or anything else.
pub update_at : Status → Poller → ℕ → Run Poller
update_at cnew p i = do
  let fd = (p.objects i).fd
  assert (is_none (p.channels fd))
  let added = record p { channels = assign p.channels fd (some i) }
  ok (update (set_status added i cadded) epoll_ctl_add i)
update_at cdeleted p i = do
  let fd = (p.objects i).fd
  assert (not (is_none (p.channels fd)))
  assert (is_at (p.channels fd) i)
  ok (update (set_status p i cadded) epoll_ctl_add i)
update_at cadded p i = do
  let fd = (p.objects i).fd
  assert (not (is_none (p.channels fd)))
  let same = record p { channels = assign p.channels fd (some i) }
  ok (
      if is_non_event (p.objects i)
      then set_status (update same epoll_ctl_del i) i cdeleted
      else update same epoll_ctl_mod i)

pub update_channel : Poller → ℕ → Run Poller
update_channel p i = update_at (p.objects i).status p i

abbrev pub is_cadded : Status → Bool
is_cadded cadded = true
is_cadded _ = false

abbrev pub is_cnew : Status → Bool
is_cnew cnew = true
is_cnew _ = false

pub remove_channel : Poller → ℕ → Run Poller
remove_channel p i = do
  let c = p.objects i
  assert p.in_loop_thread
  assert (is_non_event c)
  assert (not (is_none (p.channels c.fd)))
  assert (is_at (p.channels c.fd) i)
  assert (not (is_cnew c.status))
  let erased = record p { channels = assign p.channels c.fd none }
  ok (set_status (if is_cadded c.status then update erased epoll_ctl_del i else erased) i cnew)

pub has_channel : Poller → ℕ → Bool
has_channel p i = is_at (p.channels (p.objects i).fd) i

-- fillActiveChannel on the events that `epoll_wait` stored: the channel and the events of each.
pub fill_loop : Poller → List (ℕ × Events) → Run (Poller × List ℕ)
fill_loop p [] = ok (p, [])
fill_loop p ((i, e) ∷ ready) = do
  assert (is_at (p.channels (p.objects i).fd) i)
  (q, active) ← fill_loop (set_channel p i (set_events (p.objects i) e)) ready
  ok (q, i ∷ active)

abbrev pub count {ℓ} : {A : Type ℓ} → List A → ℕ
count [] = 0
count (x ∷ xs) = suc (count xs)

pub fill_active_channel : Poller → List (ℕ × Events) → Run (Poller × List ℕ)
fill_active_channel p ready = assert (ltb (count ready) p.event_vec_size) >> fill_loop p ready

-- poll, on what `epoll_wait` gave, `none` where it failed. `reserve` leaves the size of the vector.
pub poll : Poller → Option (List (ℕ × Events)) → Run (Poller × List ℕ)
poll p none = ok (p, [])
poll p (some []) = ok (p, [])
poll p (some (r ∷ ready)) = fill_active_channel p (r ∷ ready)

-- Channel::update behind a change of the events; EventLoop::updateChannel asserts the thread.
pub change : (Events → Events) → Poller → ℕ → Run Poller
change f p i = do
  assert p.in_loop_thread
  update_channel
      (set_channel p i
        (record (p.objects i) { events = f (p.objects i).events; add_to_loop = true }))
      i

abbrev pub enable_read : Poller → ℕ → Run Poller
enable_read = change (λ e. either e read_event)

abbrev pub disable_read : Poller → ℕ → Run Poller
disable_read = change (λ e. both e (other_than read_event))

abbrev pub enable_write : Poller → ℕ → Run Poller
enable_write = change (λ e. either e write_event)

-- `events_ &= CWriteEvent`, without the complement.
abbrev pub disable_write : Poller → ℕ → Run Poller
disable_write = change (λ e. both e write_event)

abbrev pub disable_all : Poller → ℕ → Run Poller
disable_all = change (λ e. none_event)

-- The test of `std::find`.
abbrev pub member : ℕ → List ℕ → Bool
member i [] = false
member i (j ∷ js) = j == i || member i js

-- While events are handled, only the current channel or one without an event may be removed.
abbrev pub removable : Poller → ℕ → Bool
removable p i =
    not p.event_handling || (is_at p.current_active i || not (member i p.active_channels))

-- EventLoop::removeChannel.
pub loop_remove_channel : Poller → ℕ → Run Poller
loop_remove_channel p i = do assert p.in_loop_thread; assert (removable p i); remove_channel p i

-- Channel::remove.
pub remove : Poller → ℕ → Run Poller
remove p i = do
  assert (is_non_event (p.objects i))
  loop_remove_channel (set_channel p i (record (p.objects i) { add_to_loop = false })) i
