-- ===== src/RecyThread/Worker.antt =====
-- The thread function of net/tiny_recythread.cxx, one turn of its loop at a time. The clock, in
-- nanoseconds, is read once for each connection of the queue: reading k is `clock k`. The lock is
-- held for the whole sweep, so that a sweep is one step.
use tiny_network_repository.Prelude.{
  ℕ, ◌+◌, ◌-◌, ◌/◌, Bool, true, false, List, [], ◌∷◌, ◌++◌, Option, if◌then◌else◌, ltb,
}
use tiny_network_repository.Prelude.Int.{ℤ}
use tiny_network_repository.Prelude.Outcome.{Outcome, ok, ◌>>=◌}
use tiny_network_repository.Poller.{Poller}
use tiny_network_repository.TcpConnection.{TcpConnection}
use tiny_network_repository.TcpConnectionPool.{TcpConnectionPool, close}
use tiny_network_repository.RecyThread.{RecyThread}

-- `duration_cast<seconds>` of the time that a connection has been in the queue.
abbrev pub seconds_in : ℕ → TcpConnection → ℕ
seconds_in now c = (now - c.in_recy_time_point) / 1000000000

-- Where a sweep stands: what it kept, how often it posted, and the pool that it closes into.
pub record Sweep : Type 0 where
  pub kept : List ℕ
  pub posted : ℕ
  pub pool : TcpConnectionPool
  pub poller : Poller
  pub closed : List (Option ℤ)

abbrev pub keep : ℕ → Sweep → Sweep
keep conn s = record s { kept = s.kept ++ (conn ∷ []); posted = s.posted + 1 }

abbrev pub close_and_erase : ℕ → Sweep → Outcome Sweep
close_and_erase conn s = do
  (pool', poller', fd) ← close conn s.pool s.poller
  ok (record s { pool = pool'; poller = poller'; closed = s.closed ++ (fd ∷ []) })

-- The body of the loop over the queue.
unfoldable pub sweep_one : ℕ → ℕ → Sweep → Outcome Sweep
sweep_one now conn s =
    if ltb (seconds_in now (s.pool.conns conn)) 10 then ok (keep conn s) else close_and_erase conn s

unfoldable pub sweep : (ℕ → ℕ) → ℕ → List ℕ → Sweep → Outcome Sweep
sweep clock k [] s = ok s
sweep clock k (conn ∷ rest) s = do s' ← sweep_one (clock k) conn s; sweep clock (k + 1) rest s'

pub record State : Type 0 where
  pub thread : RecyThread
  pub pool : TcpConnectionPool
  pub poller : Poller

-- The result of sem_wait, and whether the loop goes on. A semaphore at zero blocks.
pub data Wait : Type 0 where
  woken interrupted failed : Wait

pub data Turn : Type 0 where
  again finished blocked : Turn

abbrev pub no_sweep : State → Sweep
no_sweep s = record { kept = []; posted = 0; pool = s.pool; poller = s.poller; closed = [] }

-- The queue is looked at where `m_eventQueueSize` is positive; nothing takes from that counter.
unfoldable pub sweep_queue : (ℕ → ℕ) → State → Outcome (Turn × State)
sweep_queue clock s =
    if ltb 0 s.thread.event_queue_size
    then (do
      w ← sweep clock 0 s.thread.event_queue (no_sweep s)
      let t = record s.thread {
        event_queue = w.kept;
        sem_event_queue = s.thread.sem_event_queue + w.posted;
      }
      ok (again, record { thread = t; pool = w.pool; poller = w.poller }))
    else ok (again, s)

abbrev pub take_signal : State → State
take_signal s = record s {
  thread = record s.thread { sem_event_queue = s.thread.sem_event_queue - 1 };
}

abbrev pub stopped : State → State
stopped s = record s { thread = record s.thread { stop = true } }

-- `alive` is whether the thread object is still there, `stop_later` what `m_stop` reads after the
-- wait.
unfoldable pub turn : (ℕ → ℕ) → Bool → Wait → Bool → State → Outcome (Turn × State)
turn clock false w stop_later s = ok (finished, s)
turn clock true interrupted stop_later s = if s.thread.stop then ok (finished, s) else ok (again, s)
turn clock true failed stop_later s =
    if s.thread.stop then ok (finished, s) else ok (finished, stopped s)
turn clock true woken stop_later s =
    if s.thread.stop
    then ok (finished, s)
    else if ltb 0 s.thread.sem_event_queue
    then (if stop_later then ok (finished, take_signal s) else sweep_queue clock (take_signal s))
    else ok (blocked, s)
