-- ===== src/System/Fair.antt =====
-- Nobody is sent more answers than reports were read of him.

use mathlib.Core.Path.{subst}
use tiny_network_repository.Prelude.{
  ℕ, ◌≤◌, ◌≡◌, refl, arith, Bool, List, [], ◌∷◌, Option, none, some, ltb, if_lem,
}
use tiny_network_repository.Prelude.Outcome.{
  ok, WhenOk->>=, WhenOk-vacuous, WhenDone, WhenDone-map, WhenDone-vacuous,
}
use tiny_network_repository.Codec.{MsgHead}
use tiny_network_repository.Poller.{CtlCall, Poller}
use tiny_network_repository.TcpConnection.{TcpConnection}
use tiny_network_repository.TcpConnection.Output.{WriteResult, has_channel, tcp_handle_write}
use tiny_network_repository.RecyThread.Worker.{sweep_one}
use tiny_network_repository.SendThread.{create_thread}
use tiny_network_repository.System.{System, Sweeping, start}
use tiny_network_repository.System.Sweeps.{
  beginning_sweep, sweep_from, sweeping_next, end_sweep_from, ending_sweep,
}
use tiny_network_repository.System.Loop.{writing}
use tiny_network_repository.System.Run.{
  Action, accept, read, write, run_task, begin_pass, send_next, end_pass, begin_sweep, sweep_next,
  end_sweep, act, runs,
}
use tiny_network_repository.System.Right.Loop.{reading-WhenDone}
use tiny_network_repository.System.Delivery.{and_on-WhenDone}
use tiny_network_repository.System.Tally.{tally, whose, IsCounted, after_read-IsCounted}
use tiny_network_repository.System.Tally.Tasks.{run_task-IsCounted}
use tiny_network_repository.System.Tally.Passes.{
  beginning_pass-IsCounted, sending_next-IsCounted, ending_pass-IsCounted,
}

module _ (h : MsgHead) where
  writing-IsCounted :
      (i : ℕ) (script : List WriteResult) (s : System)
      → IsCounted h s
      → WhenDone (IsCounted h) (writing i script s)
  writing-IsCounted i script s le =
      let c = s.pool.conns i in
      let written = tcp_handle_write script c s.poller in
      if_lem (WhenDone (IsCounted h)) (has_channel c)
        (λ e. WhenDone-map (IsCounted h) written _ (WhenDone-vacuous written) (λ r u. le)) (λ e. tt)

  beginning_sweep-IsCounted :
      (s : System) (o : Option Sweeping)
      → IsCounted h s
      → WhenDone (IsCounted h) (beginning_sweep o s)
  beginning_sweep-IsCounted s (some v) le = tt
  beginning_sweep-IsCounted s none le =
      if_lem (WhenDone (IsCounted h)) (ltb 0 s.recy.sem_event_queue)
        (λ e. if_lem (WhenDone (IsCounted h)) (ltb 0 s.recy.event_queue_size) (λ f. le) (λ f. tt))
        (λ e. tt)

  sweep_from-IsCounted :
      (now : ℕ) (s : System) (v : Sweeping) (left : List ℕ)
      → IsCounted h s
      → WhenDone (IsCounted h) (sweep_from now left v s)
  sweep_from-IsCounted now s v [] le = tt
  sweep_from-IsCounted now s v (conn ∷ rest) le =
      let swept = sweep_one now conn (record v.sweep { pool = s.pool; poller = s.poller }) in
      WhenOk->>= (IsCounted h) swept _ (WhenOk-vacuous swept) (λ w u. le)

  sweeping_next-IsCounted :
      (now : ℕ) (s : System) (o : Option Sweeping)
      → IsCounted h s
      → WhenDone (IsCounted h) (sweeping_next now o s)
  sweeping_next-IsCounted now s none le = tt
  sweeping_next-IsCounted now s (some v) le = sweep_from-IsCounted now s v v.left le

  end_sweep_from-IsCounted :
      (s : System) (v : Sweeping) (left : List ℕ)
      → IsCounted h s
      → WhenDone (IsCounted h) (end_sweep_from left v s)
  end_sweep_from-IsCounted s v (conn ∷ rest) le = tt
  end_sweep_from-IsCounted s v [] le = le

  ending_sweep-IsCounted :
      (s : System) (o : Option Sweeping) → IsCounted h s → WhenDone (IsCounted h) (ending_sweep o s)
  ending_sweep-IsCounted s none le = tt
  ending_sweep-IsCounted s (some v) le = end_sweep_from-IsCounted s v v.left le

  act-IsCounted :
      (ctl_ok : CtlCall → Bool) (a : Action) (s : System)
      → IsCounted h s
      → WhenDone (IsCounted h) (act ctl_ok a s)
  unfolding act
  act-IsCounted ctl_ok (accept script) s le = le
  act-IsCounted ctl_ok (read now conn fuel reads) s le =
      reading-WhenDone (IsCounted h) now conn fuel reads s
        (λ n r e v few. after_read-IsCounted h conn n s r v.tasks few le)
  act-IsCounted ctl_ok (write conn script) s le = writing-IsCounted conn script s le
  act-IsCounted ctl_ok (run_task k) s le = run_task-IsCounted h k s le
  act-IsCounted ctl_ok begin_pass s le = beginning_pass-IsCounted h s s.pass refl le
  act-IsCounted ctl_ok (send_next script) s le = sending_next-IsCounted h script s s.pass refl le
  act-IsCounted ctl_ok end_pass s le = ending_pass-IsCounted h s s.pass refl le
  act-IsCounted ctl_ok begin_sweep s le = beginning_sweep-IsCounted s s.sweep le
  act-IsCounted ctl_ok (sweep_next now) s le = sweeping_next-IsCounted now s s.sweep le
  act-IsCounted ctl_ok end_sweep s le = ending_sweep-IsCounted s s.sweep le

  runs-IsCounted :
      (ctl_ok : CtlCall → Bool) (actions : List Action) (s : System)
      → IsCounted h s
      → WhenDone (IsCounted h) (runs ctl_ok actions s)
  unfolding runs
  runs-IsCounted ctl_ok [] s le = le
  runs-IsCounted ctl_ok (a ∷ rest) s le =
      and_on-WhenDone ctl_ok (IsCounted h) (IsCounted h) (runs ctl_ok rest) (act ctl_ok a s)
        (act-IsCounted ctl_ok a s le) (λ s' le'. runs-IsCounted ctl_ok rest s' le')

-- After any sequence of actions of the server, from its start, in any order: for each connection
-- and each of its sequence numbers, `send` took no more answers (it returned something else than
-- -1) than reports were decoded from its receive buffer while the connection had this number. The
-- reports are counted by `decode` alone, not by what is put among the tasks, and the answers by
-- what `send` returned, not by what is erased. The sequence number of a message is compared and the
-- message is sent in one action.
pub no_more_answers :
    (ctl_ok : CtlCall → Bool) (memory : ℕ → TcpConnection) (size : ℕ) (p : Poller)
    (actions : List Action) (h : MsgHead) {s : System}
    → runs ctl_ok actions (start memory size p) ≡ some (ok s)
    → tally h (whose s.sent) ≤ tally h (whose s.asked)
unfolding start create_thread
no_more_answers ctl_ok memory size p actions h {s} ran =
    let counted : IsCounted h s =
      subst (WhenDone (IsCounted h)) ran
        (runs-IsCounted h ctl_ok actions (start memory size p) (omega arith)) in
    omega (arith, counted)
