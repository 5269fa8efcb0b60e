-- ===== src/TcpServer/Tests.antt =====
-- A server with room for one connection: two peers come in, and one of them cannot be named.
use tiny_network_repository.Prelude.{ℕ, ◌+◌, ◌≡◌, refl, arith, Bool, true, false, [], ◌∷◌, some}
use tiny_network_repository.Prelude.Int.{pos}
use tiny_network_repository.Prelude.Outcome.{ok}
use tiny_network_repository.Buffer.{fresh}
use tiny_network_repository.Poller.{CtlCall, Poller}
use tiny_network_repository.TcpConnection.{TcpConnection}
use tiny_network_repository.TcpConnectionPool
use tiny_network_repository.TcpConnectionPool.{TcpConnectionPool, Opening, addresses, get_free_size}
use tiny_network_repository.TcpServer.{
  TcpServer, Calls, Accepts, Accepting, accepted, refused, eagain, on_read, handle_accept,
  on_listen,
}
use tiny_network_repository.TcpServer.Accept.{Served, Accepted, named, handle_accept_lem}
use tiny_network_repository.TcpServer.Init.{started, first_connections}
use tiny_network_repository.Samples.{connection, idle_poller}

accepts : CtlCall → Bool
accepts call = true

abbrev memory : ℕ → TcpConnection
memory i = connection fresh

abbrev peer_at : ℕ → Opening
peer_at fd = record {
  at = 40 + fd;
  next_id = fd;
  fd = pos fd;
  base = 2;
  local = 1;
  peer = fd;
  pool = 3;
}

abbrev nameless_then_one : Accepts
nameless_then_one =
    accepted (peer_at 6) false true (accepted (peer_at 7) true true (refused eagain))

abbrev two_peers : Accepts
two_peers = accepted (peer_at 5) true true nameless_then_one

abbrev one_free : Accepting
one_free = record { pool = TcpConnectionPool.create memory 1; poller = idle_poller; closed = [] }

-- The second peer with names finds the pool full.
one_closed : (handle_accept accepts true two_peers one_free).closed ≡ pos 7 ∷ []
unfolding handle_accept TcpConnectionPool.get_one_tcp_connection TcpConnectionPool.create
one_closed = refl

handle_accept_lem_example :
    Accepted accepts true
      (named two_peers)
      (0 ∷ [])
      one_free
      (handle_accept accepts true two_peers one_free)
unfolding TcpConnectionPool.create
handle_accept_lem_example = handle_accept_lem accepts true two_peers one_free (0 ∷ []) refl (tt, tt)

abbrev all_succeed : Calls
all_succeed = record {
  listen_sock = pos 4;
  reuse_ok = true;
  nonblocking_ok = true;
  bind_ok = true;
  listen_ok = true;
}

abbrev ready : TcpServer × Poller
ready =
    started accepts memory 30 0 2 9 1 all_succeed idle_poller refl true nameless_then_one
      (omega arith)

first_connections_example :
    (s : TcpServer) × (q : Poller) × (pool : TcpConnectionPool) × (on_listen accepts
        nameless_then_one
        (on_read true ready.0)
        ready.1
      ≡ ok (s, q, []))
    × (s.conn_pool ≡ some pool)
    × (get_free_size pool + 1 ≡ 1)
    × Served true (TcpConnectionPool.create memory 1).conns pool.conns (0 ∷ []) (peer_at 7 ∷ [])
first_connections_example =
    first_connections accepts memory 30 0 2 9 1 all_succeed idle_poller refl true nameless_then_one
      (omega arith)
