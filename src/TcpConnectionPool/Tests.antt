-- ===== src/TcpConnectionPool/Tests.antt =====
-- Runs of the pool, and the theorems at a pool of two connections.
use mathlib.Core.List.{Nodup}
use mathlib.Core.List.Perm
use tiny_network_repository.Prelude.{ℕ, ◌+◌, ◌≡◌, refl, Bool, true, [], ◌∷◌, Option, some, length}
use tiny_network_repository.Prelude.Int.{ℤ, pos}
use tiny_network_repository.Prelude.Outcome.{ok}
use tiny_network_repository.Buffer.{fresh}
use tiny_network_repository.Poller.{CtlCall, Poller}
use tiny_network_repository.TcpConnection.{TcpConnection}
use tiny_network_repository.TcpConnectionPool.{
  TcpConnectionPool, Opening, create, get_free_size, close, get_one_tcp_connection,
  put_one_tcp_connection,
}
use tiny_network_repository.TcpConnectionPool.Owned.{
  Held, Reach, here, next, take, put, all_of, after_take, after_put, pool_conserves,
}
use tiny_network_repository.Samples.{connection, idle_poller}

accepts : CtlCall → Bool
accepts call = true

abbrev memory : ℕ → TcpConnection
memory i = connection fresh

abbrev opening : Opening
opening = record { at = 40; next_id = 0; fd = pos 5; base = 2; local = 0; peer = 0; pool = 1 }

abbrev start : Held
start = record { pool = create memory 2; poller = idle_poller; out = [] }

abbrev one_out : Held
one_out = after_take accepts opening start

abbrev all_back : Held
all_back = after_put 0 [] one_out

taken : one_out.out ≡ 0 ∷ []
unfolding create get_one_tcp_connection
taken = refl

taken_and_back : Reach accepts start all_back
taken_and_back = next (next here (take start opening)) (put one_out 0 [] (rw taken (Perm.refl _)))

pool_conserves_example :
    Nodup (all_of all_back) × (get_free_size all_back.pool + length all_back.out ≡ 2)
pool_conserves_example = pool_conserves accepts memory 2 idle_poller taken_and_back

-- A pool whose connection 0 is out.
abbrev served : TcpConnectionPool
served = record { total_size = 1; free_connection_list = []; conns = memory }

abbrev closed_once : TcpConnectionPool × Poller × Option ℤ
closed_once = put_one_tcp_connection (some 0) served idle_poller

closes : close 0 served idle_poller ≡ ok (closed_once.0, closed_once.1, closed_once.2)
unfolding close
closes = refl
