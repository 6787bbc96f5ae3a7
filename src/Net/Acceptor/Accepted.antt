-- ===== src/Net/Acceptor/Accepted.antt =====
-- The connections that a server takes from its acceptor.
use reactor_server.Prelude.{ℕ, ◌≡◌, true, List, [], ◌∷◌, ◌++◌, Option, none, some}
use reactor_server.Prelude.Int.{ℤ}
use reactor_server.Net.ThreadPool.Readiness.{IsReady}
use reactor_server.Net.Server.{established, Call, TcpServer}
use reactor_server.Net.Server.Names.{IsNamed}
use reactor_server.Net.Acceptor.{positive}

-- The server can take a connection.
pub record IsServing (s : TcpServer) : Type 0 where
  pub in_thread : s.in_loop_thread ≡ true
  pub named : IsNamed s
  pub ready : IsReady s.thread_pool

-- The calls that the results of `accept` ask for.
abbrev pub call_for : Option ℕ → List Call
call_for none = []
call_for (some fd) = established fd ∷ []

abbrev pub calls_for : List ℤ → List Call
calls_for [] = []
calls_for (r ∷ rs) = call_for (positive r) ++ calls_for rs

-- What is left of `s` once these calls were asked for.
pub record Takes (s : TcpServer) (calls : List Call) (t : TcpServer) : Type 0 where
  pub serving : IsServing t
  pub asked : t.queued ≡ s.queued ++ calls
