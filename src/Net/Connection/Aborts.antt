-- ===== src/Net/Connection/Aborts.antt =====
-- Calls that end the process in a state that shutdown leaves.
use reactor_server.Prelude.{
  ◌≡◌, inl, inr, sym, ap, subst, true, false, ok, aborts, ◌>>=◌, ◌>>◌, assert, Bool-cases,
  if◌then◌else◌,
}
use reactor_server.Net.Channel.{is_non_event, is_writing}
use reactor_server.Net.Poller.{remove}
use reactor_server.Net.Poller.Removal.{remove-busy}
use reactor_server.Net.Connection.{
  cconnected, cdisconnecting, TcpConnection, is_connected, connection_destroyed, disconnect,
  handle_close, shutdown, shutdown_in_loop, on_channel,
}

-- A connected connection that is shut down in its loop's thread and whose close event then comes
-- ends the process: handleClose asserts a state that shutdown has left.
pub shutdown-handle_close :
    (c : TcpConnection)
    → c.state ≡ cconnected
    → c.poller.in_loop_thread ≡ true
    → (shutdown c >>= handle_close) ≡ aborts
unfolding shutdown shutdown_in_loop handle_close
shutdown-handle_close c is thread =
    let connected : is_connected c.state ≡ true = ap is_connected is in
    rw (connected, thread)
      (elim (Bool-cases (is_writing (c.poller.objects c.channel))) [ inl e ↦ rw e | inr e ↦ rw e ])

-- connectionDestroyed in the loop's thread, on a connection that is disconnecting and whose channel
-- asks for an event, ends the process: it removes a channel that it has not silenced.
pub connection_destroyed-aborts :
    (c : TcpConnection)
    → c.state ≡ cdisconnecting
    → c.poller.in_loop_thread ≡ true
    → is_non_event (c.poller.objects c.channel) ≡ false
    → connection_destroyed c ≡ aborts
unfolding connection_destroyed
connection_destroyed-aborts c is thread busy =
    let shut : is_connected c.state ≡ false = ap is_connected is in
    subst
      (λ b.
        (assert b >> ((if is_connected c.state then disconnect c else ok c) >>= on_channel remove))
        ≡ aborts)
      (sym thread) (rw (shut, remove-busy c.poller c.channel busy))
