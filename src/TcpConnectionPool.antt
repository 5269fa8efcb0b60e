-- ===== src/TcpConnectionPool.antt =====
-- include/tiny_tcpconnectionpool.h and net/tiny_tcpconnectionpool.cxx: the connections of a server.
-- The block of connections is the function `conns` from addresses, 0 up to the size; each method
-- holds the lock, so it is one step. A connection that has a pool has this one.
pub mod Owned
pub mod Close
mod Tests
use tiny_network_repository.Prelude.{
  ℕ, zero, suc, ◌+◌, Bool, List, [], ◌∷◌, ◌++◌, Option, none, some, length, if◌then◌else◌, ◌==◌,
}
use tiny_network_repository.Prelude.Int.{ℤ}
use tiny_network_repository.Prelude.Outcome.{Outcome, ok, err, null_pointer}
use tiny_network_repository.Poller.{CtlCall, Poller}
use tiny_network_repository.TcpConnection
use tiny_network_repository.TcpConnection.{TcpConnection}

pub record TcpConnectionPool : Type 0 where
  pub total_size : ℕ
  pub free_connection_list : List ℕ
  pub conns : ℕ → TcpConnection

-- The addresses from `i` on, `n` of them.
abbrev pub addresses : ℕ → ℕ → List ℕ
addresses i zero = []
addresses i (suc n) = i ∷ addresses (i + 1) n

-- `memory` is what `new char[]` returned, seen as connections before their constructors ran.
unfoldable pub create : (ℕ → TcpConnection) → ℕ → TcpConnectionPool
unfolding TcpConnection.make
create memory size = record {
  total_size = size;
  free_connection_list = addresses 0 size;
  conns = λ i. let m = memory i in TcpConnection.make m.fd m.conn_pool m.in_recy_time_point;
}

unfoldable pub get_size : TcpConnectionPool → ℕ
get_size p = p.total_size

unfoldable pub get_free_size : TcpConnectionPool → ℕ
get_free_size p = length p.free_connection_list

abbrev pub update : (ℕ → TcpConnection) → ℕ → TcpConnection → ℕ → TcpConnection
update conns i c j = if i == j then c else conns j

-- The arguments of init: the address and the counter for the channel, the descriptor, the event
-- base, the two addresses and the pool itself.
pub record Opening : Type 0 where
  pub at : ℕ
  pub next_id : ℕ
  pub fd : ℤ
  pub base : ℕ
  pub local : ℕ
  pub peer : ℕ
  pub pool : ℕ

abbrev pub open_with : (CtlCall → Bool) → Opening → TcpConnection → Poller → TcpConnection × Poller
open_with ctl_ok o c p =
    TcpConnection.init ctl_ok o.at o.next_id o.fd o.base o.local o.peer o.pool c p

abbrev pub get_from :
    (CtlCall → Bool)
    → Opening
    → List ℕ
    → TcpConnectionPool
    → Poller
    → Option ℕ × TcpConnectionPool × Poller
get_from ctl_ok o [] s p = (none, s, p)
get_from ctl_ok o (i ∷ rest) s p =
    let (c, p') = open_with ctl_ok o (s.conns i) p in
    (some i, record s { free_connection_list = rest; conns = update s.conns i c }, p')

unfoldable pub get_one_tcp_connection :
    (CtlCall → Bool) → Opening → TcpConnectionPool → Poller → Option ℕ × TcpConnectionPool × Poller
get_one_tcp_connection ctl_ok o s p = get_from ctl_ok o s.free_connection_list s p

-- Also the descriptor that was closed.
unfoldable pub put_one_tcp_connection :
    Option ℕ → TcpConnectionPool → Poller → TcpConnectionPool × Poller × Option ℤ
put_one_tcp_connection none s p = (s, p, none)
put_one_tcp_connection (some i) s p =
    let (c, p', closed) = TcpConnection.reset (s.conns i) p in
    (
      record s {
        free_connection_list = s.free_connection_list ++ (i ∷ []);
        conns = update s.conns i c;
      },
      p',
      closed,
    )

abbrev pub close_in :
    Option ℕ → ℕ → TcpConnectionPool → Poller → Outcome (TcpConnectionPool × Poller × Option ℤ)
close_in none i s p = err null_pointer
close_in (some pool) i s p = ok (put_one_tcp_connection (some i) s p)

-- TcpConnection::close(), which goes through `m_connPool`.
unfoldable pub close :
    ℕ → TcpConnectionPool → Poller → Outcome (TcpConnectionPool × Poller × Option ℤ)
close i s p = close_in (s.conns i).conn_pool i s p
