-- ===== src/TcpConnectionPool/Close.antt =====
-- Closing a connection, and closing it again.
use tiny_network_repository.Prelude.{
  ℕ, ◌≡◌, refl, sym, ◌∙◌, ap, arith, true, [], ◌∷◌, ◌++◌, Option, none, some, ◌==◌,
}
use tiny_network_repository.Prelude.Int.{ℤ}
use tiny_network_repository.Prelude.Outcome.{ok, err, null_pointer}
use tiny_network_repository.Poller.{Poller}
use tiny_network_repository.TcpConnection.{TcpConnection, reset}
use tiny_network_repository.TcpConnectionPool.{
  TcpConnectionPool, put_one_tcp_connection, close, close_in, update,
}

pub update_self : (conns : ℕ → TcpConnection) (i : ℕ) (c : TcpConnection) → update conns i c i ≡ c
update_self conns i c = let test : (i == i) ≡ true = ground arith in rw test

-- What `close` and `putOneTcpConnection` leave: the connection is the last of the free list and has
-- neither a pool nor a channel.
pub put_lem :
    (i : ℕ) (s : TcpConnectionPool) (p : Poller)
    → let (s', p', closed) = put_one_tcp_connection (some i) s p in
      (s'.free_connection_list ≡ s.free_connection_list ++ (i ∷ []))
      × ((s'.conns i).conn_pool ≡ none)
      × ((s'.conns i).channel ≡ none)
unfolding put_one_tcp_connection reset
put_lem i s p =
    let here = update_self s.conns i (reset (s.conns i) p).0 in
    (refl, ap (λ c. c.conn_pool) here, ap (λ c. c.channel) here)

close-inv :
    (i : ℕ) (s : TcpConnectionPool) (p : Poller) {s' : TcpConnectionPool} {p' : Poller}
    {fd : Option ℤ} (pool : Option ℕ)
    → close_in pool i s p ≡ ok (s', p', fd)
    → put_one_tcp_connection (some i) s p ≡ (s', p', fd)
close-inv i s p none h = cc
close-inv i s p (some x) h = cc

-- A connection that was closed cannot be closed again before it is opened: the second close goes
-- through a null pointer to the pool.
pub close_twice :
    (i : ℕ) (s s' : TcpConnectionPool) (p p' q : Poller) (fd : Option ℤ)
    → close i s p ≡ ok (s', p', fd)
    → close i s' q ≡ err null_pointer
unfolding close
close_twice i s s' p p' q fd h =
    let e = close-inv i s p (s.conns i).conn_pool h in
    let gone : (s'.conns i).conn_pool ≡ none =
      ap (λ r. (r.0.conns i).conn_pool) (sym e) ∙ (put_lem i s p).1 in
    rw gone
