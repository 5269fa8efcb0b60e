-- ===== src/TcpConnection.antt =====
-- include/tiny_tcpconnection.h and net/tiny_tcpconnection.cxx: a connection with its buffers.
-- `self` is the address of the connection, and a channel stands beside its own address. This file
-- has the life of a connection; its children Input and Output have what it reads and writes.
pub mod Input
pub mod Output
pub mod Read
pub mod Isend
pub mod Send
pub mod Sequence
mod Tests
use tiny_network_repository.Prelude.{
  ℕ, suc, ◌+◌, ◌-◌, ◌^◌, ◌%◌, min, Bool, true, false, not, ◌&&◌, List, [], ◌∷◌, ◌++◌, Option, none,
  some, map, length, take, drop, if◌then◌else◌, ltb, ◌==◌,
}
use tiny_network_repository.Prelude.Int.{ℤ, pos, negsuc}
use tiny_network_repository.Prelude.Outcome.{Outcome, ok, err, null_pointer, ◌>>=◌, add64, sub64}
use tiny_network_repository.Buffer
use tiny_network_repository.Buffer.{Buffer, Cell, from_data}
use tiny_network_repository.Poller.{Channel, CtlCall, Poller, read_event}
use tiny_network_repository.Channel
use tiny_network_repository.RecyThread.{RecyThread, push_connection}

pub record TcpConnection : Type 0 where
  pub base : Option ℕ
  pub fd : ℤ
  pub channel : Option (ℕ × Channel)
  pub cur_sequence : ℕ
  pub use_send_event : Bool
  pub local : ℕ
  pub peer : ℕ
  pub read_task : Bool
  pub recv_buffer : Buffer
  pub write_buffer : Buffer
  pub conn_pool : Option ℕ
  pub in_recy_time_point : ℕ

-- The constructor leaves `m_fd`, `m_connPool` and the time as the memory holds them.
unfoldable pub make : ℤ → Option ℕ → ℕ → TcpConnection
make fd pool time = record {
  base = none;
  fd = fd;
  channel = none;
  cur_sequence = 0;
  use_send_event = false;
  local = 0;
  peer = 0;
  read_task = false;
  recv_buffer = Buffer.fresh;
  write_buffer = Buffer.fresh;
  conn_pool = pool;
  in_recy_time_point = time;
}

-- The address of the channel and the counter of channels are what `new Channel` finds.
unfoldable pub init :
    (CtlCall → Bool) → ℕ → ℕ → ℤ → ℕ → ℕ → ℕ → ℕ → TcpConnection → Poller → TcpConnection × Poller
unfolding Buffer.clear Channel.create
init ctl_ok at next_id fd base local peer pool c p =
    let (ch, p') = Channel.create ctl_ok at next_id fd read_event p in
    (
      record c {
        cur_sequence = add64 c.cur_sequence 1;
        local = local;
        peer = peer;
        base = some base;
        fd = fd;
        conn_pool = some pool;
        use_send_event = false;
        recv_buffer = Buffer.clear c.recv_buffer;
        write_buffer = Buffer.clear c.write_buffer;
        channel = some (at, ch);
      },
      p',
    )

-- `delete m_channel` runs ~Channel, which closes.
abbrev delete_channel : Option (ℕ × Channel) → Poller → Poller × Option ℤ
delete_channel none p = (p, none)
delete_channel (some (at, ch)) p = let (ch', p', closed) = Channel.close at ch p in (p', closed)

-- Also the descriptor that was closed.
unfoldable pub reset : TcpConnection → Poller → TcpConnection × Poller × Option ℤ
unfolding Channel.close
reset c p =
    let (p', closed) = delete_channel c.channel p in
    (
      record c {
        cur_sequence = add64 c.cur_sequence 1;
        base = none;
        fd = negsuc 0;
        conn_pool = none;
        use_send_event = false;
        channel = none;
      },
      p',
      closed,
    )

abbrev pub disable_read :
    TcpConnection → Option (ℕ × Channel) → Poller → Outcome (TcpConnection × Poller)
disable_read c none p = err null_pointer
disable_read c (some (at, ch)) p =
    let (ch', p') = Channel.enable_read at false ch p in
    ok (record c { channel = some (at, ch') }, p')

unfoldable pub recycle :
    ℕ → ℕ → TcpConnection → RecyThread → Poller → Outcome (TcpConnection × RecyThread × Poller)
unfolding push_connection Channel.enable_read
recycle now self c t p = do
  let t' = (push_connection self t).0
  (c', p') ← disable_read (record c { in_recy_time_point = now }) c.channel p
  ok (c', t', p')

pub data Errno : Type 0 where
  eintr eagain other : Errno
