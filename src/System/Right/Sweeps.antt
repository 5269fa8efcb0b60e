-- ===== src/System/Right/Sweeps.antt =====
-- What the recycling thread does keeps the invariant.

use tiny_network_repository.Prelude.{
  ℕ, ◌+◌, ◌^◌, ◌<◌, Bool, List, [], ◌∷◌, Option, none, some, ltb, if_lem,
}
use tiny_network_repository.Prelude.Outcome.{WhenOk->>=, WhenDone}
use tiny_network_repository.Poller.{CtlCall}
use tiny_network_repository.RecyThread.Worker.{sweep_one}
use tiny_network_repository.System.{System, Sweeping}
use tiny_network_repository.System.Right.{IsRight}
use tiny_network_repository.System.Sweeps.{
  beginning_sweep, sweep_from, sweeping_next, end_sweep_from, ending_sweep,
}
use tiny_network_repository.System.Run.{begin_sweep, sweep_next, end_sweep, act}
use tiny_network_repository.System.Known.{under_way}
use tiny_network_repository.System.Changes.{sweep_one-IsSafe}

beginning_sweep-IsRight :
    (n : ℕ) (s : System) (o : Option Sweeping)
    → IsRight n s
    → WhenDone (IsRight n) (beginning_sweep o s)
beginning_sweep-IsRight n s (some v) w = tt
beginning_sweep-IsRight n s none w =
    if_lem (WhenDone (IsRight n)) (ltb 0 s.recy.sem_event_queue)
      (λ e.
        if_lem (WhenDone (IsRight n)) (ltb 0 s.recy.event_queue_size)
          (λ f. record { safe = w.safe; sent = w.sent; flushed = w.flushed }) (λ f. tt))
      (λ e. tt)

pub begin_sweep-IsRight :
    (ctl_ok : CtlCall → Bool) (n : ℕ) (s : System)
    → IsRight n s
    → WhenDone (IsRight n) (act ctl_ok begin_sweep s)
unfolding act
begin_sweep-IsRight ctl_ok n s w = beginning_sweep-IsRight n s s.sweep w

sweep_from-IsRight :
    (now n : ℕ) (s : System) (v : Sweeping) (left : List ℕ)
    → n + 1 < 2 ^ 64
    → IsRight n s
    → WhenDone (IsRight (n + 1)) (sweep_from now left v s)
sweep_from-IsRight now n s v [] few w = tt
sweep_from-IsRight now n s v (conn ∷ rest) few w =
    let at = record v.sweep { pool = s.pool; poller = s.poller } in
    WhenOk->>= (IsRight (n + 1)) (sweep_one now conn at) _
      (sweep_one-IsSafe s.asked (under_way s) n now conn at few w.safe)
      (λ w' u. record { safe = u; sent = w.sent; flushed = w.flushed })

sweeping_next-IsRight :
    (now n : ℕ) (s : System) (o : Option Sweeping)
    → n + 1 < 2 ^ 64
    → IsRight n s
    → WhenDone (IsRight (n + 1)) (sweeping_next now o s)
sweeping_next-IsRight now n s none few w = tt
sweeping_next-IsRight now n s (some v) few w = sweep_from-IsRight now n s v v.left few w

pub sweep_next-IsRight :
    (ctl_ok : CtlCall → Bool) (now n : ℕ) (s : System)
    → n + 1 < 2 ^ 64
    → IsRight n s
    → WhenDone (IsRight (n + 1)) (act ctl_ok (sweep_next now) s)
unfolding act
sweep_next-IsRight ctl_ok now n s few w = sweeping_next-IsRight now n s s.sweep few w

ended_sweep-IsRight :
    (n : ℕ) (s : System) (v : Sweeping) (left : List ℕ)
    → IsRight n s
    → WhenDone (IsRight n) (end_sweep_from left v s)
ended_sweep-IsRight n s v (conn ∷ rest) w = tt
ended_sweep-IsRight n s v [] w = record { safe = w.safe; sent = w.sent; flushed = w.flushed }

pub end_sweep-IsRight :
    (ctl_ok : CtlCall → Bool) (n : ℕ) (s : System)
    → IsRight n s
    → WhenDone (IsRight n) (act ctl_ok end_sweep s)
unfolding act
end_sweep-IsRight ctl_ok n s w = sweeping s.sweep
  where
    sweeping : (o : Option Sweeping) → WhenDone (IsRight n) (ending_sweep o s)
    sweeping none = tt
    sweeping (some v) = ended_sweep-IsRight n s v v.left w
