-- ===== src/Net/Tests/Connections.antt =====
-- Runs of a connection at concrete inputs.
use reactor_server.Prelude.{◌≡◌, refl, [], ◌∷◌, aborts, Returns, ◌>>=◌}
use reactor_server.Net.Channel.{read_event, write_event, either}
use reactor_server.Net.Tests.{idle, watched, added, added-Holds}
use reactor_server.Net.Connection
use reactor_server.Net.Connection.{
  TcpConnection, cconnecting, cconnected, cdisconnecting, Action, connection_cb, close_cb,
  connection_established, connection_destroyed, handle_close, shutdown, act,
}
use reactor_server.Net.Connection.Aborts.{shutdown-handle_close}
use reactor_server.Net.Connection.Lifetime.{Over, handle_close-Over}
use reactor_server.Prelude.Memory.{assign}

abbrev fresh : TcpConnection
fresh = Connection.new idle 0

abbrev open_connection : TcpConnection
open_connection = record (Connection.new watched 0) { state = cconnected }

handle_close-Over_example :
    Returns
      (Over open_connection (connection_cb ∷ close_cb ∷ []))
      (handle_close open_connection >>= connection_destroyed)
unfolding assign
handle_close-Over_example =
    handle_close-Over open_connection (added-Holds read_event) refl refl refl

shutdown-handle_close_example : (shutdown open_connection >>= handle_close) ≡ aborts
shutdown-handle_close_example = shutdown-handle_close open_connection refl refl

abbrev sending : TcpConnection
sending = record (Connection.new (added (either read_event write_event)) 0) {
  state = cconnected;
  write_idx = 6;
}
