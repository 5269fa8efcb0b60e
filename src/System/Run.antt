-- ===== src/System/Run.antt =====
-- The actions of the server, and the sequences of them.

use tiny_network_repository.Prelude.{ℕ, Bool, List, [], ◌∷◌, none, some}
use tiny_network_repository.Prelude.Outcome.{ok, err}
use tiny_network_repository.Poller.{CtlCall}
use tiny_network_repository.TcpConnection.Input.{Reads}
use tiny_network_repository.TcpConnection.Output.{WriteResult}
use tiny_network_repository.TcpServer.{Accepts}
use tiny_network_repository.System.{System, Acted}
use tiny_network_repository.System.Loop.{accepting, reading, writing}
use tiny_network_repository.System.Passes.{pick, running, beginning_pass, sending_next, ending_pass}
use tiny_network_repository.System.Sweeps.{beginning_sweep, sweeping_next, ending_sweep}

pub data Action : Type 0 where
  accept : Accepts → Action
  read : (now conn fuel : ℕ) → Reads → Action
  write : ℕ → List WriteResult → Action
  run_task : ℕ → Action
  begin_pass : Action
  send_next : List WriteResult → Action
  end_pass : Action
  begin_sweep : Action
  sweep_next : ℕ → Action
  end_sweep : Action

unfoldable pub act : (CtlCall → Bool) → Action → System → Acted
act ctl_ok (accept script) s = some (ok (accepting ctl_ok script s))
act ctl_ok (read now i fuel reads) s = reading now i fuel reads s
act ctl_ok (write i script) s = writing i script s
act ctl_ok (run_task k) s = running s.pass (pick k s.tasks) s
act ctl_ok begin_pass s = beginning_pass s.pass s
act ctl_ok (send_next script) s = sending_next script s.pass s
act ctl_ok end_pass s = ending_pass s.pass s
act ctl_ok begin_sweep s = beginning_sweep s.sweep s
act ctl_ok (sweep_next now) s = sweeping_next now s.sweep s
act ctl_ok end_sweep s = ending_sweep s.sweep s

abbrev pub and_on : (System → Acted) → Acted → Acted
and_on next none = none
and_on next (some (err e)) = some (err e)
and_on next (some (ok s)) = next s

unfoldable pub runs : (CtlCall → Bool) → List Action → System → Acted
runs ctl_ok [] s = some (ok s)
runs ctl_ok (a ∷ rest) s = and_on (runs ctl_ok rest) (act ctl_ok a s)
