-- ===== src/App.antt =====
-- app/tiny_server.cxx: the read callback of the server, and the business task that answers. The
-- buffer of the connection may hold several reports, so the callback loops; `fuel` bounds the loop,
-- and `starved` says that it ran out. The text that is printed on the way is left out.
pub mod Frames
pub mod Parts
pub mod Ends
pub mod Answer
pub mod Serve
pub mod Events
mod Tests
use tiny_network_repository.Prelude.{
  text_codes, ℕ, zero, suc, ◌+◌, Bool, true, false, List, [], ◌∷◌, ◌++◌, Option, some, map, length,
  if◌then◌else◌,
}
use tiny_network_repository.Prelude.Int.{ℤ, pos, negsuc}
use tiny_network_repository.Prelude.Outcome.{Outcome, ok, ◌>>=◌}
use tiny_network_repository.Buffer
use tiny_network_repository.Buffer.{Buffer, Cell}
use tiny_network_repository.Codec.{Rpt, Msg, MsgHead, decode}
use tiny_network_repository.Poller.{Poller}
use tiny_network_repository.RecyThread.{RecyThread}
use tiny_network_repository.TcpConnection.{TcpConnection, recycle}
use tiny_network_repository.TcpConnection.Input.{
  get_recv_buffer_addr, get_recv_buffer_size, consumed_recv_buffer_size,
}

pub data Ended : Type 0 where
  waiting recycled starved : Ended

-- What the callback works on, and the messages that it put into the thread pool.
pub record Reading : Type 0 where
  pub conn : TcpConnection
  pub recy : RecyThread
  pub poller : Poller
  pub tasks : List Msg

-- A message of the report, for the peer that the connection has now.
abbrev pub message : ℕ → TcpConnection → Rpt → Msg
message self c rpt = record {
  msg_head = record { cur_seq = c.cur_sequence; tcp_conn = self };
  rpt = rpt;
}

-- `enqueue` returns a null pointer where the thread pool was stopped, and the message is gone.
abbrev pub enqueue : Bool → Msg → List Msg → List Msg
enqueue stopped m tasks = if stopped then tasks else tasks ++ (m ∷ [])

-- A report of `n` bytes: it leaves the buffer and goes to the thread pool.
unfoldable pub take_report : Bool → ℕ → ℕ → Rpt → Reading → Reading
unfolding consumed_recv_buffer_size
take_report stopped self n rpt r =
    let c = consumed_recv_buffer_size r.conn n in
    record r { conn = c; tasks = enqueue stopped (message self c rpt) r.tasks }

-- `c.recycle()`
abbrev pub give_up : ℕ → ℕ → Reading → Outcome (Reading × Ended)
give_up now self r = do
  (c, t, p) ← recycle now self r.conn r.recy r.poller
  ok (record r { conn = c; recy = t; poller = p }, recycled)

-- What the first part of decode's result leads to; `next` is the rest of the loop.
abbrev pub react : ℕ → ℕ → Reading → ℤ → (ℕ → Outcome (Reading × Ended)) → Outcome (Reading × Ended)
react now self r (negsuc _) next = give_up now self r
react now self r (pos zero) next = ok (r, waiting)
react now self r (pos (suc n)) next = next (suc n)

unfoldable pub read_task : ℕ → ℕ → Bool → ℕ → Reading → Outcome (Reading × Ended)
read_task now self stopped zero r = ok (r, starved)
read_task now self stopped (suc fuel) r = do
  (n, rpt) ← decode (get_recv_buffer_addr r.conn) (get_recv_buffer_size r.conn)
  react now self r n (λ k. read_task now self stopped fuel (take_report stopped self k rpt r))

abbrev pub answer_text : List Cell
answer_text = map some (text_codes "recv ok, notify you")

-- The business task: the message that goes to the sending thread.
unfoldable pub answer : Msg → Outcome Msg
answer m = do
  b ← Buffer.append Buffer.fresh answer_text (length answer_text)
  ok (record {
    msg_head = m.msg_head;
    rpt = record {
      rpt_head = record { rpt_len = 8 + length answer_text; type = 1 };
      rpt_buffer = b;
    };
  })
