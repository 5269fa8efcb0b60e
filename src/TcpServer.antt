-- ===== src/TcpServer.antt =====
-- include/tiny_tcpserver.h and net/tiny_tcpserver.cxx: a listening socket, and a pool from which
-- each accepted descriptor gets a connection. What accept4, getpeername and getsockname return is a
-- script, which ends where accept4 fails; the results of the calls of init are arguments. The read
-- callback is a truth value, as in TcpConnection.
pub mod Accept
pub mod Init
mod Tests
use tiny_network_repository.Prelude.{
  ℕ, zero, suc, ◌+◌, Bool, true, false, not, ◌&&◌, List, [], ◌∷◌, ◌++◌, Option, none, some,
  if◌then◌else◌,
}
use tiny_network_repository.Prelude.Int.{ℤ, pos, negsuc}
use tiny_network_repository.Prelude.Outcome.{Outcome, ok, err, null_pointer}
use tiny_network_repository.Poller.{Channel, CtlCall, Poller, read_event}
use tiny_network_repository.Channel
use tiny_network_repository.TcpConnection.{TcpConnection}
use tiny_network_repository.TcpConnectionPool
use tiny_network_repository.TcpConnectionPool.{
  TcpConnectionPool, Opening, get_one_tcp_connection, update,
}

pub data Status : Type 0 where
  not_init inited working finished failed : Status

pub record TcpServer : Type 0 where
  pub base : ℕ
  pub addr : ℕ
  pub conn_pool : Option TcpConnectionPool
  pub conn_pool_size : ℕ
  pub listen_channel : Option (ℕ × Channel)
  pub status : Status
  pub read_task : Bool

-- The constructor of TcpServerImpl. It does not set `m_listenChannel`, which is none here.
unfoldable pub make : ℕ → ℕ → ℕ → TcpServer
make base addr conn_pool_size = record {
  base = base;
  addr = addr;
  conn_pool = none;
  conn_pool_size = conn_pool_size;
  listen_channel = none;
  status = not_init;
  read_task = false;
}

unfoldable pub on_read : Bool → TcpServer → TcpServer
on_read task s = record s { read_task = task }

pub data AcceptErrno : Type 0 where
  eagain econnaborted econnreset emfile enfile enosys other : AcceptErrno

-- A descriptor with what init is given for it, and whether its two names can be had.
pub data Accepts : Type 0 where
  accepted : Opening → (has_peer has_local : Bool) → Accepts → Accepts
  refused : AcceptErrno → Accepts

-- The pool, the poller and the descriptors that handleAccept closed.
pub record Accepting : Type 0 where
  pub pool : TcpConnectionPool
  pub poller : Poller
  pub closed : List ℤ

-- `newConn->onRead(m_readTask)`
abbrev pub set_read_task : Bool → ℕ → TcpConnectionPool → TcpConnectionPool
set_read_task task i p = record p {
  conns = update p.conns i (record (p.conns i) { read_task = task });
}

-- What follows getOneTcpConnection: a full pool closes the descriptor and ends the loop.
abbrev pub hand_over :
    Bool
    → Opening
    → (Accepting → Accepting)
    → Accepting
    → Option ℕ × TcpConnectionPool × Poller
    → Accepting
hand_over task o more a (none, pool, poller) = record a {
  pool = pool;
  poller = poller;
  closed = a.closed ++ (o.fd ∷ []);
}
hand_over task o more a (some i, pool, poller) =
    more (record a { pool = set_read_task task i pool; poller = poller })

-- handleAccept: every failure of accept4 ends the loop. A descriptor without its names is passed
-- over, and is not closed.
unfoldable pub handle_accept : (CtlCall → Bool) → Bool → Accepts → Accepting → Accepting
handle_accept ctl_ok task (refused e) a = a
handle_accept ctl_ok task (accepted o has_peer has_local rest) a =
    let more = handle_accept ctl_ok task rest in
    if has_peer && has_local
    then hand_over task o more a (get_one_tcp_connection ctl_ok o a.pool a.poller)
    else more a

-- setNonBlocking, from what ioctl returns.
abbrev pub set_non_blocking : ℤ → Bool
set_non_blocking (negsuc zero) = false
set_non_blocking result = true

-- What the calls of init return: the socket, and whether the others succeed; setNonBlocking is one.
pub record Calls : Type 0 where
  pub listen_sock : ℤ
  pub reuse_ok : Bool
  pub nonblocking_ok : Bool
  pub bind_ok : Bool
  pub listen_ok : Bool

abbrev pub is_negative : ℤ → Bool
is_negative (pos n) = false
is_negative (negsuc n) = true

-- `memory`, `at` and `next_id` are what the pool and the channel find.
unfoldable pub init :
    (CtlCall → Bool) → (ℕ → TcpConnection) → ℕ → ℕ → Calls → TcpServer → Poller → TcpServer × Poller
unfolding TcpConnectionPool.create Channel.create
init ctl_ok memory at next_id k s p =
    if is_negative k.listen_sock
    then (record s { status = failed }, p)
    else if not k.reuse_ok
    then (record s { status = failed }, p)
    else if not k.nonblocking_ok
    then (record s { status = failed }, p)
    else if not k.bind_ok
    then (record s { status = failed }, p)
    else if not k.listen_ok
    then (record s { status = failed }, p)
    else (let (ch, p') = Channel.create ctl_ok at next_id k.listen_sock read_event p in
        (
          record s {
            conn_pool = some (TcpConnectionPool.create memory s.conn_pool_size);
            listen_channel = some (at, ch);
            status = inited;
          },
          p',
        ))

-- The constructor of TcpServer
unfoldable pub new_server :
    (CtlCall → Bool)
    → (ℕ → TcpConnection)
    → (at next_id base addr conn_pool_size : ℕ) → Calls
    → Poller
    → TcpServer × Poller
unfolding make init
new_server ctl_ok memory at next_id base addr conn_pool_size k p =
    init ctl_ok memory at next_id k (make base addr conn_pool_size) p

-- The read callback of the listening channel.
abbrev pub on_listen_in :
    (CtlCall → Bool)
    → Option TcpConnectionPool
    → Accepts
    → TcpServer
    → Poller
    → Outcome (TcpServer × Poller × List ℤ)
on_listen_in ctl_ok none script s p = err null_pointer
on_listen_in ctl_ok (some pool) script s p =
    let a =
      handle_accept ctl_ok s.read_task script (record { pool = pool; poller = p; closed = [] }) in
    ok (record s { conn_pool = some a.pool }, a.poller, a.closed)

unfoldable pub on_listen :
    (CtlCall → Bool) → Accepts → TcpServer → Poller → Outcome (TcpServer × Poller × List ℤ)
unfolding handle_accept
on_listen ctl_ok script s p = on_listen_in ctl_ok s.conn_pool script s p
