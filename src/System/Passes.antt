-- ===== src/System/Passes.antt =====
-- What the threads of the thread pool and the sending thread do: a task, and the parts of a pass over
-- the queue of answers. Any task may run first, and the other threads go on between two parts.
use mathlib.Core.Option
use tiny_network_repository.Prelude.{
  length, Bool, false, not, ℕ, zero, suc, List, [], ◌∷◌, ◌++◌, Option, none, some, if◌then◌else◌,
  ltb, ◌==◌,
}
use tiny_network_repository.Prelude.Outcome.{Outcome, ok, err, ◌>>=◌}
use tiny_network_repository.Buffer.{Buffer}
use tiny_network_repository.Codec.{Msg, encode}
use tiny_network_repository.TcpConnection.Output.{WriteResult, Reply, send, minus_one}
use tiny_network_repository.SendThread
use tiny_network_repository.SendThread.{SendThread, Sending, send_one, push_msg}
use tiny_network_repository.App.{answer}
use tiny_network_repository.System.{Who, Passing, System, Acted}

-- One of the tasks, and the others.
abbrev pub pick : ℕ → List Msg → Option (Msg × List Msg)
pick k [] = none
pick zero (m ∷ ms) = some (m, ms)
pick (suc k) (m ∷ ms) = Option.map (λ (p : Msg × List Msg). (p.0, m ∷ p.1)) (pick k ms)

abbrev pub push_answer : List Msg → System → Msg → System
push_answer rest s a = record s { tasks = rest; send = (push_msg a s.send).0 }

-- The queue of the sending thread is locked during a pass.
abbrev pub running : Option Passing → Option (Msg × List Msg) → System → Acted
running (some p) t s = none
running none none s = none
running none (some (m, rest)) s = some (answer m >>= λ a. ok (push_answer rest s a))

-- A pass works on the connections and the poller as they are now.
abbrev pub now_sending : System → Sending → Sending
now_sending s w = record w { conns = s.pool.conns; poller = s.poller }

-- The state of the sending thread, as its turns see it.
abbrev pub send_state : System → SendThread.State
send_state s = record { thread = s.send; conns = s.pool.conns; poller = s.poller }

abbrev pub from_send : SendThread.State → System → System
from_send t s = record s {
  pool = record s.pool { conns = t.conns };
  poller = t.poller;
  send = t.thread;
}

-- The server when a pass begins.
abbrev pub begun : System → System
begun s =
    let t = SendThread.take_signal (send_state s) in
    record (from_send t s) {
      pass = some (record { left = s.send.msg_event_queue; sending = SendThread.no_sending t });
    }

-- The wait of the sending thread ends, and its queue is not empty.
abbrev pub beginning_pass : Option Passing → System → Acted
beginning_pass (some p) s = none
beginning_pass none s =
    if ltb 0 s.send.sem_event_queue
    then (if ltb 0 s.send.msg_event_queue_size then some (ok (begun s)) else none)
    else none

-- What `send` returns for the message, where it comes to the call.
abbrev pub replied : List WriteResult → Msg → Sending → Outcome Buffer → Option (Outcome Reply)
replied script m w (err e) = none
replied script m w (ok b) = send script b (w.conns m.msg_head.tcp_conn) w.poller

abbrev pub is_taken : Option (Outcome Reply) → Bool
is_taken none = false
is_taken (some (err e)) = false
is_taken (some (ok r)) = not (r.result == minus_one)

-- For whom `send` took the message: `send` was called if there is something new on the wire, an empty
-- piece at least, and it took the message if it returned something else than -1. What the thread does
-- with the message after that does not count. The peer is the one of that moment.
abbrev pub receipt : List WriteResult → Msg → Sending → Sending → List Who
receipt script m w w' =
    if length w'.wire == length w.wire
    then []
    else if is_taken (replied script m w (encode m.rpt))
    then (record { head = m.msg_head; peer = (w.conns m.msg_head.tcp_conn).peer } ∷ [])
    else []

abbrev pub after_one : List WriteResult → Msg → List Msg → Sending → System → Sending → System
after_one script m ms w s w' = record s {
  pool = record s.pool { conns = w'.conns };
  poller = w'.poller;
  pass = some (record { left = ms; sending = w' });
  sent = s.sent ++ receipt script m w w';
}

-- The sequence number is compared and the message is sent with nothing in between, which the code
-- does not ensure: another thread may renew the connection after the comparison (SendThread.Late).
abbrev pub send_from : List WriteResult → List Msg → Passing → System → Acted
send_from script [] p s = none
send_from script (m ∷ ms) p s =
    let w = now_sending s p.sending in
    Option.map (λ o. o >>= λ w'. ok (after_one script m ms w s w')) (send_one script m w)

abbrev pub sending_next : List WriteResult → Option Passing → System → Acted
sending_next script none s = none
sending_next script (some p) s = send_from script p.left p s

-- A pass ends where it has come to the end of the queue.
abbrev pub end_from : List Msg → Passing → System → Acted
end_from (m ∷ ms) p s = none
end_from [] p s =
    let done = SendThread.after_pass (send_state s) (now_sending s p.sending) in
    some (ok (record (from_send done.1 s) { pass = none }))

abbrev pub ending_pass : Option Passing → System → Acted
ending_pass none s = none
ending_pass (some p) s = end_from p.left p s
