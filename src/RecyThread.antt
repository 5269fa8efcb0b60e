-- ===== src/RecyThread.antt =====
-- include/tiny_recythread.h and net/tiny_recythread.cxx: the queue of connections that are to be
-- closed. A connection is known by its address.
pub mod Worker
pub mod Recycle
mod Tests
use tiny_network_repository.Prelude.{ℕ, ◌+◌, Bool, true, false, List, [], ◌∷◌, ◌++◌}

pub record RecyThread : Type 0 where
  pub stop : Bool
  pub event_queue_size : ℕ
  pub sem_event_queue : ℕ
  pub event_queue : List ℕ

unfoldable pub create_thread : RecyThread
create_thread = record { stop = false; event_queue_size = 0; sem_event_queue = 0; event_queue = [] }

unfoldable pub stop_thread : RecyThread → RecyThread
stop_thread t = record t { stop = true }

-- Also the result of pushConnection, which is always true.
unfoldable pub push_connection : ℕ → RecyThread → RecyThread × Bool
push_connection conn t = (
  record t {
    event_queue = t.event_queue ++ (conn ∷ []);
    event_queue_size = t.event_queue_size + 1;
    sem_event_queue = t.sem_event_queue + 1;
  },
  true,
)
