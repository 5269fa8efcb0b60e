-- ===== src/SendThread.antt =====
-- include/tiny_sendthread.h and net/tiny_sendthread.cxx: the queue of messages that are to be sent,
-- and the thread function, one turn of its loop at a time. The lock is held for a whole pass over
-- the queue. `scripts k` is what ::write returns to the send of the k-th message of a pass; the
-- result none says that a send still runs.
pub mod Pass
pub mod Late
mod Tests
use mathlib.Core.Option
use tiny_network_repository.Prelude.{
  ℕ, ◌+◌, ◌-◌, Bool, true, false, List, [], ◌∷◌, ◌++◌, Option, none, some, if◌then◌else◌, ltb, ◌==◌,
}
use tiny_network_repository.Prelude.Outcome.{Outcome, ok, err, ◌>>=◌}
use tiny_network_repository.Buffer.{Buffer, Cell}
use tiny_network_repository.Codec.{Msg, encode}
use tiny_network_repository.Poller.{Poller}
use tiny_network_repository.TcpConnection.{TcpConnection}
use tiny_network_repository.TcpConnection.Output.{WriteResult, Reply, send, minus_one}
use tiny_network_repository.TcpConnectionPool.{update}

pub record SendThread : Type 0 where
  pub stop : Bool
  pub msg_event_queue_size : ℕ
  pub sem_event_queue : ℕ
  pub msg_event_queue : List Msg

unfoldable pub create_thread : SendThread
create_thread = record {
  stop = false;
  msg_event_queue_size = 0;
  sem_event_queue = 0;
  msg_event_queue = [];
}

unfoldable pub stop_thread : SendThread → SendThread
stop_thread t = record t { stop = true }

unfoldable pub push_msg : Msg → SendThread → SendThread × Bool
push_msg m t = (
  record t {
    msg_event_queue = t.msg_event_queue ++ (m ∷ []);
    msg_event_queue_size = t.msg_event_queue_size + 1;
    sem_event_queue = t.sem_event_queue + 1;
  },
  true,
)

-- Where a pass stands: what it kept, how often it posted, how many messages it erased, the
-- connections, and what went out, by connection.
pub record Sending : Type 0 where
  pub kept : List Msg
  pub posted : ℕ
  pub erased : ℕ
  pub conns : ℕ → TcpConnection
  pub poller : Poller
  pub wire : List (ℕ × List Cell)

abbrev pub erase_msg : Sending → Sending
erase_msg s = record s { erased = s.erased + 1 }

abbrev pub keep_msg : Msg → Sending → Sending
keep_msg m s = record s { kept = s.kept ++ (m ∷ []); posted = s.posted + 1 }

-- After `send`: a message that it did not take stays in the queue.
abbrev pub after_send : Msg → Sending → Reply → Sending
after_send m s r =
    let i = m.msg_head.tcp_conn in
    let s' = record s {
      conns = update s.conns i r.conn;
      poller = r.poller;
      wire = s.wire ++ ((i, r.wire) ∷ []);
    } in
    if r.result == minus_one then keep_msg m s' else erase_msg s'

abbrev pub send_encoded :
    List WriteResult → Msg → Sending → Outcome Buffer → Option (Outcome Sending)
send_encoded script m s (err e) = some (err e)
send_encoded script m s (ok b) =
    Option.map (λ o. o >>= λ r. ok (after_send m s r))
      (send script b (s.conns m.msg_head.tcp_conn) s.poller)

-- The body of the loop over the queue. A message of an earlier peer is erased.
unfoldable pub send_one : List WriteResult → Msg → Sending → Option (Outcome Sending)
send_one script m s =
    if (s.conns m.msg_head.tcp_conn).cur_sequence == m.msg_head.cur_seq
    then send_encoded script m s (encode m.rpt)
    else some (ok (erase_msg s))

abbrev pub and_then :
    Option (Outcome Sending) → (Sending → Option (Outcome Sending)) → Option (Outcome Sending)
and_then none f = none
and_then (some (err e)) f = some (err e)
and_then (some (ok s)) f = f s

unfoldable pub send_all : (ℕ → List WriteResult) → ℕ → List Msg → Sending → Option (Outcome Sending)
send_all scripts k [] s = some (ok s)
send_all scripts k (m ∷ ms) s = and_then (send_one (scripts k) m s) (send_all scripts (k + 1) ms)

pub record State : Type 0 where
  pub thread : SendThread
  pub conns : ℕ → TcpConnection
  pub poller : Poller

pub data Wait : Type 0 where
  woken interrupted failed : Wait

pub data Turn : Type 0 where
  again finished blocked : Turn

abbrev pub no_sending : State → Sending
no_sending s = record {
  kept = [];
  posted = 0;
  erased = 0;
  conns = s.conns;
  poller = s.poller;
  wire = [];
}

-- The thread after a pass, and what the pass sent.
abbrev pub after_pass : State → Sending → Turn × State × List (ℕ × List Cell)
after_pass s w = (
  again,
  record {
    thread = record s.thread {
      msg_event_queue = w.kept;
      msg_event_queue_size = s.thread.msg_event_queue_size - w.erased;
      sem_event_queue = s.thread.sem_event_queue + w.posted;
    };
    conns = w.conns;
    poller = w.poller;
  },
  w.wire,
)

abbrev Ran : Type 0
Ran = Option (Outcome (Turn × State × List (ℕ × List Cell)))

unfoldable pub pass_queue : (ℕ → List WriteResult) → State → Ran
pass_queue scripts s =
    if ltb 0 s.thread.msg_event_queue_size
    then Option.map (λ o. o >>= λ w. ok (after_pass s w))
        (send_all scripts 0 s.thread.msg_event_queue (no_sending s))
    else some (ok (again, s, []))

abbrev pub take_signal : State → State
take_signal s = record s {
  thread = record s.thread { sem_event_queue = s.thread.sem_event_queue - 1 };
}

abbrev pub stopped : State → State
stopped s = record s { thread = record s.thread { stop = true } }

abbrev still : Turn → State → Ran
still t s = some (ok (t, s, []))

-- `alive` is whether the thread object is still there, `stop_later` what `m_stop` reads after the
-- wait. A semaphore at zero blocks.
unfoldable pub turn : (ℕ → List WriteResult) → Bool → Wait → Bool → State → Ran
turn scripts false w stop_later s = still finished s
turn scripts true interrupted stop_later s =
    if s.thread.stop then still finished s else still again s
turn scripts true failed stop_later s =
    if s.thread.stop then still finished s else still finished (stopped s)
turn scripts true woken stop_later s =
    if s.thread.stop
    then still finished s
    else if ltb 0 s.thread.sem_event_queue
    then (if stop_later then still finished (take_signal s) else pass_queue scripts (take_signal s))
    else still blocked s
