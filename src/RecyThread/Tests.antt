-- ===== src/RecyThread/Tests.antt =====
-- Turns of the recycling thread with a queue of two connections.
use tiny_network_repository.Prelude.{
  ℕ, ◌+◌, ◌≡◌, refl, arith, true, false, [], ◌∷◌, ◌++◌, length, ◌*◌,
}
use tiny_network_repository.Prelude.Outcome.{ok, err, null_pointer}
use tiny_network_repository.Buffer.{fresh}
use tiny_network_repository.TcpConnection.{TcpConnection}
use tiny_network_repository.TcpConnectionPool.{TcpConnectionPool}
use tiny_network_repository.RecyThread.{create_thread, push_connection}
use tiny_network_repository.RecyThread.Worker.{State, again, woken, turn, sweep, no_sweep}
use tiny_network_repository.RecyThread.Recycle.{young, Closable, turn_lem, sweep_twice}
use tiny_network_repository.Samples.{connection, idle_poller}

-- Connection i was put into the queue at 5 i seconds.
abbrev conns : ℕ → TcpConnection
conns i = record (connection fresh) { in_recy_time_point = i * 5000000000 }

abbrev pool : TcpConnectionPool
pool = record { total_size = 3; free_connection_list = 2 ∷ []; conns = conns }

-- Eleven seconds, and a little more at each reading.
abbrev clock : ℕ → ℕ
clock k = 11000000000 + k

abbrev waiting : State
waiting = record {
  thread = record {
    stop = false;
    event_queue_size = 2;
    sem_event_queue = 2;
    event_queue = 0 ∷ 1 ∷ [];
  };
  pool = pool;
  poller = idle_poller;
}

waiting-Closable : Closable conns (0 ∷ 1 ∷ [])
waiting-Closable = ((1, refl), ((λ e. absurd (omega arith)), tt), ((1, refl), tt, tt))

kept_is_young : young conns clock 0 (0 ∷ 1 ∷ []) ≡ 1 ∷ []
kept_is_young = refl

pushed : (push_connection 4 create_thread).0.event_queue ≡ 4 ∷ []
unfolding push_connection create_thread
pushed = refl

turn_lem_example :
    (s' : State) × (turn clock true woken false waiting ≡ ok (again, s'))
    × (s'.thread.event_queue ≡ 1 ∷ [])
    × (s'.thread.sem_event_queue + 1 ≡ 2 + length s'.thread.event_queue)
    × (s'.pool.free_connection_list ≡ (2 ∷ []) ++ (0 ∷ []))
    × (s'.thread.event_queue_size ≡ 2)
turn_lem_example = turn_lem clock waiting refl (omega arith) (omega arith) waiting-Closable

sweep_twice_example : sweep clock 0 (0 ∷ 0 ∷ 1 ∷ []) (no_sweep waiting) ≡ err null_pointer
sweep_twice_example = sweep_twice clock 0 0 1 (1 ∷ []) (no_sweep waiting) refl refl refl
