-- ===== src/System/Delivery.antt =====
-- Whom the server answers.
use mathlib.Core.List.{Mem}
use mathlib.Core.Path.{subst}
use tiny_network_repository.Prelude.{
  ℕ, ◌+◌, ◌^◌, ◌<◌, ◌≡◌, arith, Bool, List, [], ◌∷◌, some, none, All,
}
use tiny_network_repository.Prelude.Outcome.{ok, err, WhenDone}
use tiny_network_repository.Poller.{CtlCall, Poller}
use tiny_network_repository.TcpConnection.{TcpConnection, make}
use tiny_network_repository.TcpConnectionPool.{create}
use tiny_network_repository.SendThread.{create_thread}
use tiny_network_repository.System.{System, start, Acted}
use tiny_network_repository.System.Run.{
  Action, accept, read, write, run_task, begin_pass, send_next, end_pass, begin_sweep, sweep_next,
  end_sweep, act, and_on, runs,
}
use tiny_network_repository.System.Right.{IsRight, renewals}
use tiny_network_repository.System.Right.Loop.{accepting-IsRight, reading-IsRight, writing-IsRight}
use tiny_network_repository.System.Right.Tasks.{run_task-IsRight}
use tiny_network_repository.System.Right.Passes.{
  begin_pass-IsRight, send_next-IsRight, end_pass-IsRight,
}
use tiny_network_repository.System.Right.Sweeps.{
  begin_sweep-IsRight, sweep_next-IsRight, end_sweep-IsRight,
}

abbrev pub all_renewals : List Action → ℕ
all_renewals [] = 0
all_renewals (a ∷ rest) = renewals a + all_renewals rest

start-IsRight :
    (memory : ℕ → TcpConnection) (size : ℕ) (p : Poller) → IsRight 0 (start memory size p)
unfolding start create make create_thread
start-IsRight memory size p = record {
  safe = record { bound = λ i. omega arith; known = tt; held = λ i h. cc };
  sent = tt;
  flushed = tt;
}

unrenewed : (n : ℕ) (o : Acted) → WhenDone (IsRight n) o → WhenDone (IsRight (n + 0)) o
unrenewed n o h = subst (λ j. WhenDone (IsRight j) o) (omega arith) h

module _ (ctl_ok : CtlCall → Bool) where
  act-IsRight :
      (a : Action) (n : ℕ) (s : System)
      → n + renewals a < 2 ^ 64
      → IsRight n s
      → WhenDone (IsRight (n + renewals a)) (act ctl_ok a s)
  act-IsRight (accept script) n s few w = accepting-IsRight ctl_ok script n s few w
  act-IsRight (read now conn fuel reads) n s few w =
      unrenewed n _ (reading-IsRight ctl_ok now conn fuel reads n s w)
  act-IsRight (write conn script) n s few w =
      unrenewed n _ (writing-IsRight ctl_ok conn script n s w)
  act-IsRight (run_task k) n s few w = unrenewed n _ (run_task-IsRight ctl_ok k n s w)
  act-IsRight begin_pass n s few w = unrenewed n _ (begin_pass-IsRight ctl_ok n s w)
  act-IsRight (send_next script) n s few w = unrenewed n _ (send_next-IsRight ctl_ok script n s w)
  act-IsRight end_pass n s few w = unrenewed n _ (end_pass-IsRight ctl_ok n s w)
  act-IsRight begin_sweep n s few w = unrenewed n _ (begin_sweep-IsRight ctl_ok n s w)
  act-IsRight (sweep_next now) n s few w = sweep_next-IsRight ctl_ok now n s few w
  act-IsRight end_sweep n s few w = unrenewed n _ (end_sweep-IsRight ctl_ok n s w)

  pub and_on-WhenDone :
      (P Q : System → Type 0) (next : System → Acted) (o : Acted)
      → WhenDone P o
      → ((s : System) → P s → WhenDone Q (next s))
      → WhenDone Q (and_on next o)
  and_on-WhenDone P Q next none h f = tt
  and_on-WhenDone P Q next (some (err e)) h f = tt
  and_on-WhenDone P Q next (some (ok s)) h f = f s h

  runs-IsRight :
      (actions : List Action) (n k : ℕ) (s : System)
      → n + all_renewals actions ≡ k
      → k < 2 ^ 64
      → IsRight n s
      → WhenDone (IsRight k) (runs ctl_ok actions s)
  unfolding runs
  runs-IsRight [] n k s e few w = subst (λ j. IsRight j s) (omega arith) w
  runs-IsRight (a ∷ rest) n k s e few w =
      and_on-WhenDone (IsRight (n + renewals a)) (IsRight k) (runs ctl_ok rest) (act ctl_ok a s)
        (act-IsRight a n s (omega arith) w)
        (λ s' w'. runs-IsRight rest (n + renewals a) k s' (omega arith) few w')

  -- After any sequence of actions of the server, from its start, with fewer than 2^64 openings and
  -- ends of connections, in any order: everyone for whom `send` took an answer, or for whom bytes
  -- left a write buffer, is a peer of that connection from whom a report was decoded while the
  -- connection had this sequence number. An action compares the sequence number of one message and
  -- sends it, with nothing in between, which the code does not ensure, as it holds no lock for the
  -- two: the theorem is about the runs in which no other thread comes between them.
  pub answers_reach_askers :
      (memory : ℕ → TcpConnection) (size : ℕ) (p : Poller) (actions : List Action) {s : System}
      → all_renewals actions < 2 ^ 64
      → runs ctl_ok actions (start memory size p) ≡ some (ok s)
      → All (λ w. Mem w s.asked) s.sent × All (λ w. Mem w s.asked) s.flushed
  answers_reach_askers memory size p actions {s} few ran =
      let right : IsRight (all_renewals actions) s =
        subst (WhenDone (IsRight (all_renewals actions))) ran (
          runs-IsRight actions 0 (all_renewals actions) (start memory size p) (omega arith) few
            (start-IsRight memory size p)) in
      (right.sent, right.flushed)
