-- ===== src/Net/Connection.antt =====
-- src/TcpConnection.h and src/TcpConnection.cc. The callbacks of the server and the calls of the
-- socket are kept in `actions`, in order; what the socket answers is an argument.
pub mod Setup
pub mod Lifetime
pub mod Aborts
pub mod Transfer
use reactor_server.Prelude.{
  ℕ, zero, suc, ◌+◌, ◌-◌, ◌*◌, Bool, true, false, not, ◌&&◌, ◌||◌, List, [], ◌∷◌, ◌++◌, Option,
  none, some, length, take, drop, ltb, leb, ◌==◌, if◌then◌else◌, Run, ok, fault, out_of_fuel, ◌>>=◌,
  ◌>>◌, assert,
}
use reactor_server.Prelude.Bytes.{Bytes}
use reactor_server.Net.Channel.{is_reading, is_writing}
use reactor_server.Net.Poller.{
  Poller, set_channel, enable_read, disable_read, enable_write, disable_write, disable_all, remove,
}
use reactor_server.Prelude.Memory.{
  assign, assign_self, assign_ne, assign-same, assign-assign, same-or-other,
}

pub data ConnectionState : Type 0 where
  cconnecting cconnected cdisconnecting cdisconnected : ConnectionState

-- `connectionCB_`, `closeCB_`, `::shutdown(fd, SHUT_WR)`, the bytes that `write` took, `messageCB_`
-- with the bytes that were read, and `writeCompleteCB_`, queued in the loop.
pub data Action : Type 0 where
  connection_cb close_cb shutdown_write : Action
  sent message : Bytes → Action
  write_complete_cb : Action

-- `channel` is the address of the connection's channel in the poller of its loop, `read_buf` the
-- first `readIdx_` bytes of `readBuf_`, and `write_buf` the memory from `writeBuf_` on.
pub record TcpConnection : Type 0 where
  pub poller : Poller
  pub channel : ℕ
  pub state : ConnectionState
  pub reading : Bool
  pub has_write_complete_cb : Bool
  pub read_buf : Bytes
  pub write_buf : ℕ → ℕ
  pub write_idx : ℕ
  pub actions : List Action

-- The constructor.
abbrev pub new : Poller → ℕ → TcpConnection
new p i = record {
  poller = p;
  channel = i;
  state = cconnecting;
  reading = true;
  has_write_complete_cb = false;
  read_buf = [];
  write_buf = λ k. 0;
  write_idx = 0;
  actions = [];
}

abbrev pub is_connecting : ConnectionState → Bool
is_connecting cconnecting = true
is_connecting _ = false

-- isConnected.
abbrev pub is_connected : ConnectionState → Bool
is_connected cconnected = true
is_connected _ = false

abbrev pub is_disconnecting : ConnectionState → Bool
is_disconnecting cdisconnecting = true
is_disconnecting _ = false

abbrev is_disconnected : ConnectionState → Bool
is_disconnected cdisconnected = true
is_disconnected _ = false

abbrev set_state : TcpConnection → ConnectionState → TcpConnection
set_state c s = record c { state = s }

abbrev pub act : TcpConnection → Action → TcpConnection
act c a = record c { actions = c.actions ++ a ∷ [] }

-- A call of the channel.
abbrev pub on_channel : (Poller → ℕ → Run Poller) → TcpConnection → Run TcpConnection
on_channel op c = op c.poller c.channel >>= λ p. ok (record c { poller = p })

-- channel_->tie(shared_from_this()).
abbrev tie : TcpConnection → TcpConnection
tie c = record c {
  poller = set_channel c.poller c.channel (record (c.poller.objects c.channel) { tied = true });
}

pub connection_established : TcpConnection → Run TcpConnection
connection_established c = do
  assert c.poller.in_loop_thread
  assert (is_connecting c.state)
  watched ← on_channel enable_read (tie (set_state c cconnected))
  ok (act watched connection_cb)

-- What connectionDestroyed does to a connected connection.
pub disconnect : TcpConnection → Run TcpConnection
disconnect c = do
  idle ← on_channel disable_all (set_state c cdisconnected)
  ok (act idle connection_cb)

pub connection_destroyed : TcpConnection → Run TcpConnection
connection_destroyed c = do
  assert c.poller.in_loop_thread
  let left = disconnect c
  idle ← if is_connected c.state then left else ok c
  on_channel remove idle

pub handle_close : TcpConnection → Run TcpConnection
handle_close c = do
  assert c.poller.in_loop_thread
  assert (is_connected c.state || is_connecting c.state)
  idle ← on_channel disable_all (set_state c cdisconnected)
  ok (act (act idle connection_cb) close_cb)

pub shutdown_in_loop : TcpConnection → Run TcpConnection
shutdown_in_loop c = do
  assert c.poller.in_loop_thread
  ok (if is_writing (c.poller.objects c.channel) then c else act c shutdown_write)

-- shutdown, called in the loop's thread.
pub shutdown : TcpConnection → Run TcpConnection
shutdown c = if is_connected c.state then shutdown_in_loop (set_state c cdisconnecting) else ok c

pub start_read_in_loop : TcpConnection → Run TcpConnection
start_read_in_loop c = do
  assert c.poller.in_loop_thread
  let started = on_channel enable_read c >>= λ d. ok (record d { reading = true })
  if not c.reading && not (is_reading (c.poller.objects c.channel)) then started else ok c

pub stop_read_in_loop : TcpConnection → Run TcpConnection
stop_read_in_loop c = do
  assert c.poller.in_loop_thread
  let stopped = on_channel disable_read c >>= λ d. ok (record d { reading = false })
  if c.reading || is_reading (c.poller.objects c.channel) then stopped else ok c

-- The destructor's assertion.
pub destroy : TcpConnection → Run (Unit {0})
destroy c = assert (is_disconnected c.state)
