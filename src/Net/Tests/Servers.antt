-- ===== src/Net/Tests/Servers.antt =====
-- Runs of the server's connection map at concrete inputs.
use reactor_server.Prelude.{refl, inl, inr, Bool-cases, true, [], ◌∷◌, arith, Returns}
use reactor_server.Prelude.Bytes.{codes, bytes_eq, bytes_eq_refl, eq_of_bytes_eq}
use reactor_server.Prelude.Dict.{lookup}
use reactor_server.Net.ThreadPool
use reactor_server.Net.Server
use reactor_server.Net.Server.{TcpServer, conn_name, remove_connection_in_loop}
use reactor_server.Net.Server.Names.{IsNamed, Disconnected, remove_connection_in_loop-Disconnected}

abbrev serving : TcpServer
serving = record (Server.new 1 (codes "web")) {
  thread_pool = record (ThreadPool.new 1) { started = true; num_threads = 2; loops = 10 ∷ 11 ∷ [] };
}

-- One connection, with the first name.
abbrev connected : TcpServer
connected = record serving { next_conn_id = 2; connections = (conn_name (codes "web") 1, 7) ∷ [] }

connected-IsNamed : IsNamed connected
unfolding lookup
connected-IsNamed k fd e = elim (Bool-cases (bytes_eq k (conn_name (codes "web") 1))) [
  | inl same ↦ (1, omega arith, eq_of_bytes_eq k (conn_name (codes "web") 1) same)
  | inr other ↦ absurd (ground (arith, other, e))
]

remove_connection_in_loop-Disconnected_example :
    Returns
      (Disconnected connected (conn_name (codes "web") 1) 7)
      (remove_connection_in_loop connected (conn_name (codes "web") 1) 7)
unfolding lookup
remove_connection_in_loop-Disconnected_example =
    remove_connection_in_loop-Disconnected connected (conn_name (codes "web") 1) 7 refl
      connected-IsNamed (rw (bytes_eq_refl (conn_name (codes "web") 1)))
