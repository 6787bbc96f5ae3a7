-- ===== src/Net/Server/Names.antt =====
-- The map of connections: no connection takes the name of another.
use reactor_server.Prelude.{
  ℕ, ◌<◌, ◌≡◌, inl, inr, refl, sym, ap, ◌∙◌, true, [], ◌∷◌, ◌++◌, none, some, Bool-cases, arith,
  Returns, returns, Returns-assert, if◌then◌else◌, ◌==◌,
}
use reactor_server.Prelude.Bytes.{Bytes, bytes_eq}
use reactor_server.Prelude.Dict.{lookup, erase, lookup-erase}
use reactor_server.Net.ThreadPool.Readiness.{IsReady}
use reactor_server.Net.Server.{
  established, destroyed, TcpServer, conn_name, remove_connection_in_loop, found,
}

-- Every connection in the map has a name that was given out.
abbrev pub IsNamed : TcpServer → Type 0
IsNamed s =
    (k : Bytes) (fd : ℕ)
    → lookup k s.connections ≡ some fd
    → (id : ℕ) × (id < s.next_conn_id) × (k ≡ conn_name s.name id)

-- What newConnection does to the map.
pub record Connected (s : TcpServer) (fd : ℕ) (t : TcpServer) : Type 0 where
  pub named : IsNamed t
  pub ready : IsReady t.thread_pool
  pub was_unused : lookup (conn_name s.name s.next_conn_id) s.connections ≡ none
  pub entries :
      (k : Bytes)
      → lookup k t.connections
        ≡ (if bytes_eq k (conn_name s.name s.next_conn_id) then some fd else lookup k s.connections)
  pub asked : t.queued ≡ s.queued ++ established fd ∷ []
  pub thread_kept : t.in_loop_thread ≡ s.in_loop_thread

-- What removeConnectionInLoop does to the map.
pub record Disconnected (s : TcpServer) (name : Bytes) (fd : ℕ) (t : TcpServer) : Type 0 where
  pub named : IsNamed t
  pub entries :
      (k : Bytes)
      → lookup k t.connections ≡ (if bytes_eq k name then none else lookup k s.connections)
  pub asked : t.queued ≡ s.queued ++ destroyed fd ∷ []

-- removeConnectionInLoop in the loop's thread, of a connection that is in the map, on a server
-- whose connections have names that it gave out, fails no assertion: that entry is gone, all others
-- stay, the connection is to be destroyed, and the names in the map are ones that were given out.
pub remove_connection_in_loop-Disconnected :
    (s : TcpServer) (name : Bytes) (fd : ℕ)
    → s.in_loop_thread ≡ true
    → IsNamed s
    → lookup name s.connections ≡ some fd
    → Returns (Disconnected s name fd) (remove_connection_in_loop s name fd)
unfolding remove_connection_in_loop
remove_connection_in_loop-Disconnected s name fd thread h held =
    Returns-assert s.in_loop_thread thread (
      Returns-assert (found (lookup name s.connections) == 1) (ap (λ o. found o == 1) held) (
        returns (record {
          named = names;
          entries = λ k. lookup-erase k name s.connections;
          asked = refl;
        })))
  where
    names :
        (k : Bytes) (v : ℕ)
        → lookup k (erase name s.connections) ≡ some v
        → (id : ℕ) × (id < s.next_conn_id) × (k ≡ conn_name s.name id)
    names k v e = elim (Bool-cases (bytes_eq k name)) [
      | inl same ↦ absurd (ground (arith, same, e, lookup-erase k name s.connections))
      | inr other ↦ h k v (
          ap (λ b. if b then none else lookup k s.connections) (sym other)
          ∙ sym (lookup-erase k name s.connections)
          ∙ e)
    ]
