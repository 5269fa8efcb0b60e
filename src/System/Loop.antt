-- ===== src/System/Loop.antt =====
-- What the event loop does: a call of handleAccept, or an event of a connection.
use mathlib.Core.Option
use tiny_network_repository.Prelude.{
  ℕ, Bool, true, false, List, [], ◌∷◌, ◌++◌, Option, none, some, replicate, length, if◌then◌else◌,
  ltb, ◌==◌,
}
use tiny_network_repository.Prelude.Outcome.{ok, ◌>>=◌}
use tiny_network_repository.Buffer
use tiny_network_repository.Poller.{CtlCall, Poller}
use tiny_network_repository.TcpConnection.{TcpConnection}
use tiny_network_repository.TcpConnection.Input.{Reads}
use tiny_network_repository.TcpConnection.Output.{WriteResult, has_channel, tcp_handle_write}
use tiny_network_repository.TcpServer.{Accepts, handle_accept}
use tiny_network_repository.App.{Reading, Ended, starved}
use tiny_network_repository.App.Serve.{serve}
use tiny_network_repository.System.Decoded.{reports_read}
use tiny_network_repository.System.{who, System, Acted, put, either}

abbrev pub accepting : (CtlCall → Bool) → Accepts → System → System
accepting ctl_ok script s =
    let a =
      handle_accept ctl_ok true script (record { pool = s.pool; poller = s.poller; closed = [] }) in
    record s { pool = a.pool; poller = a.poller }

-- After the read callback, where `n` reports were decoded. The queue of the recycling thread is locked during a sweep, so that a
-- connection that puts itself there waits.
abbrev pub after_read : ℕ → ℕ → System → Reading → System
after_read i n s r =
    let c = s.pool.conns i in
    record (put i r.conn s) {
      poller = r.poller;
      recy = r.recy;
      tasks = s.tasks ++ r.tasks;
      asked = s.asked ++ replicate n (who i c);
    }

abbrev pub read_done : ℕ → ℕ → System → Reading × Option Ended → Acted
read_done i n s (r, some starved) = none
read_done i n s (r, ended) = elim s.sweep [
  | none ↦ some (ok (after_read i n s r))
  | some w ↦
      if length r.recy.event_queue == length s.recy.event_queue
      then some (ok (after_read i n s r))
      else none
]

-- An event reaches a connection through its channel. The whole event is one step: a connection that
-- gives itself up is in the queue of the recycling thread before it has set its time and touched its
-- channel for the last time, and that thread is taken to come after that.
abbrev pub reading : ℕ → ℕ → ℕ → Reads → System → Acted
reading now i fuel reads s =
    let c = s.pool.conns i in
    let r : Reading = record { conn = c; recy = s.recy; poller = s.poller; tasks = [] } in
    if has_channel c
    then either (read_done i (reports_read now i fuel reads r) s) (serve now i false fuel reads r)
    else none

abbrev pub after_write : ℕ → System → TcpConnection × Poller × List Buffer.Cell → System
after_write i s (c', p, wire) =
    let c = s.pool.conns i in
    record (put i c' s) {
      poller = p;
      flushed =
          if ltb 0 (Buffer.size c.write_buffer) then s.flushed ++ (who i c ∷ []) else s.flushed;
    }

abbrev pub writing : ℕ → List WriteResult → System → Acted
writing i script s =
    let c = s.pool.conns i in
    if has_channel c
    then Option.map (λ o. o >>= λ r. ok (after_write i s r)) (tcp_handle_write script c s.poller)
    else none
