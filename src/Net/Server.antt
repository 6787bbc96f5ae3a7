-- ===== src/Net/Server.antt =====
-- src/TcpServer.h and src/TcpServer.cc: the connections of a server, by name. A connection is known
-- by its descriptor; what other loops are asked to run is kept in `queued`, in order.
pub mod Names
use reactor_server.Prelude.{
  ℕ, ◌+◌, Bool, true, false, not, List, [], ◌∷◌, ◌++◌, Option, none, some, ◌==◌, if◌then◌else◌, Run,
  ok, ◌>>=◌, ◌>>◌, assert,
}
use reactor_server.Prelude.Bytes.{Bytes, codes, bytes_eq, to_decimal}
use reactor_server.Prelude.Dict.{Dict, insert, erase, lookup}
use reactor_server.Net.ThreadPool
use reactor_server.Net.ThreadPool.{EventLoopThreadPool, get_next_loop, set_num_threads, start}

-- connectionEstablished and connectionDestroyed, bound to a connection.
pub data Call : Type 0 where
  established destroyed : ℕ → Call

-- `in_loop_thread` is `isInLoopThread()` of the server's loop.
pub record TcpServer : Type 0 where
  pub name : Bytes
  pub thread_pool : EventLoopThreadPool
  pub started : Bool
  pub next_conn_id : ℕ
  pub connections : Dict ℕ
  pub in_loop_thread : Bool
  pub queued : List Call

-- The constructor.
abbrev pub new : ℕ → Bytes → TcpServer
new loop name = record {
  name = name;
  thread_pool = ThreadPool.new loop;
  started = false;
  next_conn_id = 1;
  connections = [];
  in_loop_thread = true;
  queued = [];
}

pub set_thread_num : TcpServer → ℕ → TcpServer
set_thread_num s num = record s { thread_pool = set_num_threads s.thread_pool num }

pub start_server : (ℕ → ℕ) → Bool → TcpServer → Run TcpServer
start_server start_loop has_cb s = do
  assert (not s.started)
  assert s.in_loop_thread
  pool ← start start_loop s.in_loop_thread has_cb s.thread_pool
  ok (record s { thread_pool = pool; started = true })

-- `name_ + buf`, where `buf` is printed with "-%s*%d".
pub conn_name : Bytes → ℕ → Bytes
conn_name name id = name ++ (codes "-9000*" ++ to_decimal id)

pub new_connection : TcpServer → ℕ → Run TcpServer
new_connection s sock_fd = do
  assert s.in_loop_thread
  (pool, io_loop) ← get_next_loop s.in_loop_thread s.thread_pool
  ok (record s {
    thread_pool = pool;
    next_conn_id = s.next_conn_id + 1;
    connections = insert (conn_name s.name s.next_conn_id) sock_fd s.connections;
    queued = s.queued ++ established sock_fd ∷ [];
  })

abbrev pub found : Option ℕ → ℕ
found none = 0
found (some fd) = 1

-- removeConnectionInLoop, for the connection of this name and descriptor.
pub remove_connection_in_loop : TcpServer → Bytes → ℕ → Run TcpServer
remove_connection_in_loop s name fd = do
  assert s.in_loop_thread
  assert (found (lookup name s.connections) == 1)
  ok (record s { connections = erase name s.connections; queued = s.queued ++ destroyed fd ∷ [] })

-- The destructor: every connection that is in the map is to be destroyed, in the map's order.
abbrev destroyed_all : Dict ℕ → List Call
destroyed_all [] = []
destroyed_all ((name, fd) ∷ m) = destroyed fd ∷ destroyed_all m

pub destroy_server : TcpServer → Run TcpServer
destroy_server s = do
  assert s.in_loop_thread
  ok (record s { queued = s.queued ++ destroyed_all s.connections })
