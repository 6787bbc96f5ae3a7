-- ===== src/Net/Acceptor.antt =====
-- src/Acceptor.h and src/Acceptor.cc: the listening socket, and what its read event does. What
-- `socket`, `bind` and `accept` return are arguments; socket options are left out.
pub mod Accepted
use reactor_server.Prelude.{
  ℕ, zero, suc, Bool, true, false, List, [], ◌∷◌, Option, none, some, if◌then◌else◌, Run, ok,
  aborts, assert, ◌>>=◌, ◌>>◌,
}
use reactor_server.Prelude.Int.{ℤ, pos, negsuc, leb_ℤ}
use reactor_server.Net.Channel
use reactor_server.Net.Poller.{Poller, set_channel, enable_read}
use reactor_server.Net.Server.{TcpServer, new_connection}

-- A descriptor that passes the test `fd > 0`.
abbrev pub positive : ℤ → Option ℕ
positive (pos (suc n)) = some (suc n)
positive _ = none

-- createNonBlockingFd on the descriptor, behind its assertion.
abbrev bind_fd : ℤ → Option ℕ → Run ℕ
bind_fd bind none = aborts
bind_fd bind (some fd) = if leb_ℤ (pos 0) bind then ok fd else aborts

pub create_non_blocking_fd : ℤ → ℤ → Run ℕ
create_non_blocking_fd socket bind = bind_fd bind (positive socket)

-- Acceptor, with the poller of its loop and the place of `acceptChannel_` in it.
pub record Acceptor : Type 0 where
  pub sock_fd : ℕ
  pub poller : Poller
  pub accept_channel : ℕ
  pub listening : Bool

-- The constructor.
pub make : ℤ → ℤ → Poller → ℕ → Run Acceptor
make socket bind p i = do
  fd ← create_non_blocking_fd socket bind
  q ← enable_read (set_channel p i (Channel.new fd)) i
  ok (record { sock_fd = fd; poller = q; accept_channel = i; listening = true })

-- The test of the descriptor in handleRead, where `callback` is newConnectionCB_ if it is set.
abbrev pub hand_over {ℓ} : {A : Type ℓ} → Option (A → ℕ → Run A) → Option ℕ → A → Run A
hand_over callback none s = ok s
hand_over none (some fd) s = ok s
hand_over (some callback) (some fd) s = callback s fd

-- handleRead, on what `accept` returns and the state of the callback.
pub handle_accept {ℓ} : {A : Type ℓ} → Bool → Option (A → ℕ → Run A) → ℤ → A → Run A
handle_accept in_loop_thread callback new_fd s =
    assert in_loop_thread >> hand_over callback (positive new_fd) s

-- The read events of the acceptor of a TcpServer, which hands it its newConnection.
pub accept_all : List ℤ → TcpServer → Run TcpServer
accept_all [] s = ok s
accept_all (r ∷ rs) s = do
  t ← handle_accept s.in_loop_thread (some new_connection) r s
  accept_all rs t
