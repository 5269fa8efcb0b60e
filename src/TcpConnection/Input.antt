-- ===== src/TcpConnection/Input.antt =====
-- The reading side of net/tiny_tcpconnection.cxx. What ::read returns is a script, which ends with
-- the result that ends the loop.
use tiny_network_repository.Prelude.{
  ◌∷◌, ℕ, Bool, true, false, List, some, map, length, take, if◌then◌else◌,
}
use tiny_network_repository.Prelude.Outcome.{Outcome, ok, ◌>>=◌}
use tiny_network_repository.Buffer
use tiny_network_repository.Buffer.{Buffer, Cell}
use tiny_network_repository.Poller.{Poller}
use tiny_network_repository.RecyThread.{RecyThread}
use tiny_network_repository.TcpConnection.{TcpConnection, recycle}

-- What ::read returns, up to the result that ends the loop. Where it returns bytes there is a first
-- one: no byte is the end of the stream.
pub data Reads : Type 0 where
  got : ℕ → List ℕ → Reads → Reads
  interrupted : Reads → Reads
  would_block eof broken : Reads

-- ::read fills at most `space` bytes behind the end.
unfoldable pub read_into : Buffer → List ℕ → Outcome Buffer
unfolding Buffer.space Buffer.write_end Buffer.add_size
read_into b xs = do
  let bytes = map some (take (Buffer.space b) xs)
  b' ← Buffer.write_end b bytes
  ok (Buffer.add_size b' (length bytes))

-- The loop of tcpHandleRead: the receive buffer, and whether the connection is still there.
unfoldable pub read_loop : Reads → Buffer → Outcome (Buffer × Bool)
unfolding read_into Buffer.make_room
read_loop (got x xs rest) b = do
  b' ← Buffer.make_room b
  b'' ← read_into b' (x ∷ xs)
  read_loop rest b''
read_loop (interrupted rest) b = do b' ← Buffer.make_room b; read_loop rest b'
read_loop would_block b = do b' ← Buffer.make_room b; ok (b', true)
read_loop eof b = do b' ← Buffer.make_room b; ok (b', false)
read_loop broken b = do b' ← Buffer.make_room b; ok (b', false)

-- The last part says whether the read callback is called.
unfoldable pub tcp_handle_read :
    ℕ
    → ℕ
    → Reads
    → TcpConnection
    → RecyThread
    → Poller
    → Outcome (TcpConnection × RecyThread × Poller × Bool)
unfolding read_loop recycle
tcp_handle_read now self reads c t p = do
  (b, there) ← read_loop reads c.recv_buffer
  let c' = record c { recv_buffer = b }
  if there
      then ok (c', t, p, c.read_task)
      else (do (c'', t', p') ← recycle now self c' t p; ok (c'', t', p', false))

-- getRecvBufferAddr(), getRecvBufferSize() and consumedRecvBufferSize(len)
unfoldable pub get_recv_buffer_addr : TcpConnection → List Cell
get_recv_buffer_addr c = Buffer.from_data c.recv_buffer

unfoldable pub get_recv_buffer_size : TcpConnection → ℕ
unfolding Buffer.size
get_recv_buffer_size c = Buffer.size c.recv_buffer

unfoldable pub consumed_recv_buffer_size : TcpConnection → ℕ → TcpConnection
unfolding Buffer.consumed
consumed_recv_buffer_size c len = record c { recv_buffer = Buffer.consumed c.recv_buffer len }
