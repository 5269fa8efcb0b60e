-- ===== src/System/Boot.antt =====
-- What main() of app/tiny_server.cxx sets up before its loop. A handler of a signal only prints; the
-- server has the default number of connections, 10000, or another one.
use tiny_network_repository.Prelude.{ℕ, ◌+◌, Bool, true, false, List, [], ◌∷◌, Option, none, some}
use tiny_network_repository.Prelude.Int.{ℤ}
use tiny_network_repository.Codec.{Msg}
use tiny_network_repository.Poller.{CtlCall, Poller, read_event}
use tiny_network_repository.Channel
use tiny_network_repository.Channel.Teardown.{create_poller}
use tiny_network_repository.TcpConnection.{TcpConnection}
use tiny_network_repository.EventLoop.{EventLoop, init_loop}
use tiny_network_repository.Signal.{Signals, SignalRegister, high_signal, signal_registe}
use tiny_network_repository.ThreadPool
use tiny_network_repository.ThreadPool.{ThreadPool, add_thread_by_flag}
use tiny_network_repository.TcpServer
use tiny_network_repository.TcpServer.{
  TcpServer, Calls, Status, inited, failed, new_server, on_read,
}

pub data Handler : Type 0 where
  on_sigint on_sigusr1 : Handler

-- SIGINT and SIGUSR1
abbrev pub registers : List (SignalRegister Handler)
registers =
    record { sig_no = 2; sig_handler = on_sigint }
    ∷ record { sig_no = 10; sig_handler = on_sigusr1 }
    ∷ []

-- `new EventBase`: the loop, and its poller with the channel of the pipe, if `pipe` gave one. Also
-- the number of the last channel.
unfoldable pub new_event_base :
    {A : Type 0} → (CtlCall → Bool) → Option ℤ → ℕ → ℕ → EventLoop A × Poller × ℕ
unfolding create_poller Channel.create init_loop
new_event_base ctl_ok none at next_id = (init_loop false, create_poller, next_id)
new_event_base ctl_ok (some fd) at next_id =
    let (ch, p) = Channel.create ctl_ok at next_id fd read_event create_poller in
    (init_loop true, p, next_id + 1)

pub record Server (A : Type 0) : Type 0 where
  pub signals : Signals Handler
  pub work_pool : ThreadPool Msg
  pub loop : EventLoop A
  pub server : TcpServer
  pub poller : Poller

-- `at` and `at'` are the addresses of the two channels, and `memory` is what the pool finds.
unfoldable pub boot :
    {A : Type 0}
    → (CtlCall → Bool)
    → (ℕ → TcpConnection)
    → Option ℤ
    → (at at' next_id base addr conn_pool_size : ℕ) → Calls
    → Server A
unfolding signal_registe new_event_base ThreadPool.create ThreadPool.start TcpServer.make new_server
    on_read
boot ctl_ok memory pipe at at' next_id base addr conn_pool_size k =
    let (l, p, id) = new_event_base ctl_ok pipe at next_id in
    let (s, p') =
      TcpServer.init ctl_ok memory at' id k (TcpServer.make base addr conn_pool_size) p in
    record {
      signals = signal_registe high_signal registers (record { handlers = []; installed = [] });
      work_pool = ThreadPool.start (ThreadPool.create 5 10 1 10000);
      loop = l;
      server = on_read true s;
      poller = p';
    }
