-- ===== src/System/Right.antt =====
-- The invariant of the server.
pub mod Loop
pub mod Tasks
pub mod Passes
pub mod Sweeps
use mathlib.Core.List.{Mem}
use tiny_network_repository.Prelude.{ℕ, length, All}
use tiny_network_repository.TcpServer.Accept.{named}
use tiny_network_repository.System.{System, who}
use tiny_network_repository.System.Run.{Action, accept, sweep_next}
use tiny_network_repository.System.Known.{IsSafe, under_way}

-- How many openings and ends of connections an action may bring.
abbrev pub renewals : Action → ℕ
renewals (accept script) = length (named script)
renewals (sweep_next now) = 1
renewals _ = 0

-- After at most `n` openings and ends: the connections and what is under way are safe, and what went
-- out was for somebody who asked.
pub record IsRight (n : ℕ) (s : System) : Type 0 where
  pub safe : IsSafe n s.asked (under_way s) s.pool.conns
  pub sent : All (λ x. Mem x s.asked) s.sent
  pub flushed : All (λ x. Mem x s.asked) s.flushed
