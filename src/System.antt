-- ===== src/System.antt =====
-- The whole server, as app/tiny_server.cxx puts it together: the pool of connections, the poller, the
-- recycling thread, the tasks of the thread pool and the sending thread, which share the connections.
-- This file has the state; the children Loop, Passes and Sweeps have what the event loop, the
-- threads that answer and the recycling thread do with it, and Run has the actions, one part of a
-- thread that runs alone, and their sequences.
pub mod Decoded
pub mod Loop
pub mod Passes
pub mod Sweeps
pub mod Run
pub mod Known
pub mod Reader
pub mod Writer
pub mod Changes
pub mod Right
pub mod Delivery
pub mod Uninterrupted
pub mod Boot
pub mod Tally
pub mod Fair
pub mod Answered
pub mod Vacant
pub mod Tidy
pub mod Handover
mod Tests
use tiny_network_repository.Prelude.{ℕ, List, [], Option, none, some}
use tiny_network_repository.Prelude.Outcome.{Outcome, ok, err}
use tiny_network_repository.Codec.{Msg, MsgHead}
use tiny_network_repository.Poller.{Poller}
use tiny_network_repository.TcpConnection.{TcpConnection}
use tiny_network_repository.TcpConnectionPool.{TcpConnectionPool, create, update}
use tiny_network_repository.RecyThread
use tiny_network_repository.RecyThread.{RecyThread}
use tiny_network_repository.RecyThread.Worker.{Sweep}
use tiny_network_repository.SendThread
use tiny_network_repository.SendThread.{SendThread, Sending}

-- A peer of a connection: the connection, the sequence number it has for this peer, the peer.
pub record Who : Type 0 where
  pub head : MsgHead
  pub peer : ℕ

abbrev pub who : ℕ → TcpConnection → Who
who i c = record { head = record { cur_seq = c.cur_sequence; tcp_conn = i }; peer = c.peer }

-- A pass of the sending thread, and a sweep of the recycling thread, with the entries still to come.
pub record Passing : Type 0 where
  pub left : List Msg
  pub sending : Sending

pub record Sweeping : Type 0 where
  pub left : List ℕ
  pub sweep : Sweep

-- The last three are a history: from whom a report was decoded, for whom `send` took an answer, and for
-- whom bytes left a write buffer. It is computed from what `decode` and `send` return, and no action
-- reads it.
pub record System : Type 0 where
  pub pool : TcpConnectionPool
  pub poller : Poller
  pub recy : RecyThread
  pub tasks : List Msg
  pub send : SendThread
  pub pass : Option Passing
  pub sweep : Option Sweeping
  pub asked : List Who
  pub sent : List Who
  pub flushed : List Who

-- Before the loop runs: a new pool over `memory`, and threads that did nothing yet.
unfoldable pub start : (ℕ → TcpConnection) → ℕ → Poller → System
start memory size p = record {
  pool = create memory size;
  poller = p;
  recy = RecyThread.create_thread;
  tasks = [];
  send = SendThread.create_thread;
  pass = none;
  sweep = none;
  asked = [];
  sent = [];
  flushed = [];
}

-- The result none says that the action cannot happen now, or does not end.
abbrev pub Acted : Type 0
Acted = Option (Outcome System)

abbrev pub put : ℕ → TcpConnection → System → System
put i c s = record s { pool = record s.pool { conns = update s.pool.conns i c } }

abbrev pub either {ℓ} : {A : Type ℓ} → (A → Acted) → Outcome A → Acted
either next (err e) = some (err e)
either next (ok x) = next x
