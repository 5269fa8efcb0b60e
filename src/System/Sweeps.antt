-- ===== src/System/Sweeps.antt =====
-- What the recycling thread does: the parts of a sweep over its queue, between which the other threads
-- go on.

use tiny_network_repository.Prelude.{ℕ, ◌+◌, List, [], ◌∷◌, Option, none, some, if◌then◌else◌, ltb}
use tiny_network_repository.Prelude.Outcome.{ok, ◌>>=◌}
use tiny_network_repository.RecyThread.Worker
use tiny_network_repository.RecyThread.Worker.{Sweep, sweep_one}
use tiny_network_repository.System.{Sweeping, System, Acted}

abbrev pub recy_state : System → Worker.State
recy_state s = record { thread = s.recy; pool = s.pool; poller = s.poller }

abbrev pub beginning_sweep : Option Sweeping → System → Acted
beginning_sweep (some w) s = none
beginning_sweep none s =
    let t = Worker.take_signal (recy_state s) in
    if ltb 0 s.recy.sem_event_queue
    then (if ltb 0 s.recy.event_queue_size
        then some (
            ok (record s {
              recy = t.thread;
              sweep = some (record { left = s.recy.event_queue; sweep = Worker.no_sweep t });
            }))
        else none)
    else none

abbrev pub after_swept : List ℕ → System → Sweep → System
after_swept rest s w = record s {
  pool = w.pool;
  poller = w.poller;
  sweep = some (record { left = rest; sweep = w });
}

abbrev pub sweep_from : ℕ → List ℕ → Sweeping → System → Acted
sweep_from now [] v s = none
sweep_from now (conn ∷ rest) v s = some (
    sweep_one now conn (record v.sweep { pool = s.pool; poller = s.poller }) >>= λ w.
    ok (after_swept rest s w))

abbrev pub sweeping_next : ℕ → Option Sweeping → System → Acted
sweeping_next now none s = none
sweeping_next now (some v) s = sweep_from now v.left v s

-- The queue that the sweep leaves, and the signals that it posted.
abbrev pub end_sweep_from : List ℕ → Sweeping → System → Acted
end_sweep_from (conn ∷ rest) v s = none
end_sweep_from [] v s = some (
    ok (record s {
      recy = record s.recy {
        event_queue = v.sweep.kept;
        sem_event_queue = s.recy.sem_event_queue + v.sweep.posted;
      };
      sweep = none;
    }))

abbrev pub ending_sweep : Option Sweeping → System → Acted
ending_sweep none s = none
ending_sweep (some v) s = end_sweep_from v.left v s
