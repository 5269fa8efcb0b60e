-- ===== src/System/Tests.antt =====
-- A run of the server: a peer connects, sends two reports and is answered.
use mathlib.Core.List.{Mem}
use tiny_network_repository.Prelude.{
  false, ◌≤◌, ℕ, ◌≤◌, ◌≡◌, refl, arith, true, Bool, List, [], ◌∷◌, none, some, length, All,
}
use tiny_network_repository.Prelude.Int.{pos}
use tiny_network_repository.Prelude.Outcome.{ok}
use tiny_network_repository.Buffer
use tiny_network_repository.Buffer.{
  fresh, make_room, write_end, add_size, space, consumed, append, make_room_for,
}
use tiny_network_repository.Codec.{
  decode, decode_head, decode_body, read_u16, read_u32, read_byte, encode,
}
use tiny_network_repository.Channel
use tiny_network_repository.TcpConnectionPool
use tiny_network_repository.TcpConnectionPool.{get_one_tcp_connection}
use tiny_network_repository.TcpConnection
use tiny_network_repository.RecyThread
use tiny_network_repository.SendThread
use tiny_network_repository.SendThread.{push_msg, send_one}
use tiny_network_repository.SendThread.{turn, woken}
use tiny_network_repository.TcpConnection.Output.{WriteResult}
use tiny_network_repository.TcpServer.{handle_accept}
use tiny_network_repository.App.{read_task, take_report, answer}
use tiny_network_repository.App.Serve.{serve}
use tiny_network_repository.System.Run.{act}
use tiny_network_repository.Poller.{CtlCall}
use tiny_network_repository.TcpConnection.{TcpConnection}
use tiny_network_repository.TcpConnection.Input.{
  got, would_block, tcp_handle_read, read_loop, read_into, get_recv_buffer_addr,
  get_recv_buffer_size, consumed_recv_buffer_size,
}
use tiny_network_repository.TcpConnection.Output.{
  wrote, send, isend, isend_loop, after_isend, settle, keep_rest,
}
use tiny_network_repository.TcpServer.{Accepts, accepted, refused, eagain}
use tiny_network_repository.System.{System, Who, start}
use tiny_network_repository.System.Run.{
  Action, accept, read, run_task, begin_pass, send_next, end_pass, runs,
}
use tiny_network_repository.System.Delivery.{answers_reach_askers}
use tiny_network_repository.System.Decoded.{reports_read}
use tiny_network_repository.System.Boot.{boot}
use tiny_network_repository.TcpServer.{Calls}
use mathlib.Core.Path.{subst}
use tiny_network_repository.Prelude.{sym, inl, inr, ◌+◌, ◌==◌}
use tiny_network_repository.Codec.{Msg}
use tiny_network_repository.App.Answer.{answer_lem}
use tiny_network_repository.SendThread.Pass.{AllSendable, is_current}
use tiny_network_repository.TcpConnection.Isend.{Takes}
use tiny_network_repository.System.Answered.{due, task_answered}
use tiny_network_repository.Prelude.{false}
use tiny_network_repository.TcpServer.Accept.{AllDistinct}
use tiny_network_repository.TcpConnection.Output.{has_channel}
use tiny_network_repository.System.Handover.{free_connections}
use tiny_network_repository.System.Fair.{no_more_answers}
use tiny_network_repository.System.Tally.{tally, whose}
use tiny_network_repository.System.Uninterrupted.{one_pass}
use tiny_network_repository.Samples.{holding, connection, idle_poller}

abbrev always : CtlCall → Bool
always k = true

abbrev memory : ℕ → TcpConnection
memory i = connection fresh

-- One descriptor, of the peer 9.
abbrev one_peer : Accepts
one_peer =
    accepted (record { at = 70; next_id = 2; fd = pos 6; base = 2; local = 8; peer = 9; pool = 1 })
      true true (refused eagain)

abbrev demo : List Action
demo =
    accept one_peer
    ∷ read 5 0 2 (got 63 (8 ∷ 0 ∷ 2 ∷ 0 ∷ 0 ∷ 0 ∷ 0 ∷ 0 ∷ []) would_block)
    ∷ run_task 0
    ∷ begin_pass
    ∷ send_next (wrote 100 ∷ [])
    ∷ end_pass
    ∷ []

abbrev from : System
from = start memory 2 idle_poller

abbrev final : System
final = elim (runs always demo from) [ some (ok s) ↦ s | _ ↦ from ]

-- The peer 9, with the first sequence number of the connection.
abbrev nine : Who
nine = record { head = record { cur_seq = 1; tcp_conn = 0 }; peer = 9 }

ran :
    (runs always demo from ≡ some (ok final)) × (final.asked ≡ nine ∷ []) × (final.sent ≡ nine ∷ [])
unfolding reports_read runs act start TcpConnectionPool.create TcpConnection.make
    RecyThread.create_thread SendThread.create_thread handle_accept get_one_tcp_connection
    TcpConnection.init Channel.create Buffer.clear serve tcp_handle_read read_loop read_into
    make_room write_end add_size space read_task get_recv_buffer_addr get_recv_buffer_size decode
    decode_head decode_body read_u16 read_u32 read_byte take_report consumed_recv_buffer_size
    consumed Buffer.size answer append make_room_for fresh push_msg send_one encode send isend
    isend_loop after_isend settle keep_rest
ran = (refl, refl, refl)

answers_reach_askers_example :
    All (λ w. Mem w final.asked) final.sent × All (λ w. Mem w final.asked) final.flushed
answers_reach_askers_example =
    answers_reach_askers always memory 2 idle_poller demo (omega arith) ran.0

-- A server with an answer in the queue of its sending thread.
abbrev loaded : System
loaded = record {
  pool = record { total_size = 1; free_connection_list = []; conns = memory };
  poller = idle_poller;
  recy = record { stop = false; event_queue_size = 0; sem_event_queue = 0; event_queue = [] };
  tasks = [];
  send = record {
    stop = false;
    msg_event_queue_size = 1;
    sem_event_queue = 1;
    msg_event_queue =
        record {
          msg_head = record { cur_seq = 3; tcp_conn = 0 };
          rpt = record {
            rpt_head = record { rpt_len = 10; type = 1 };
            rpt_buffer = holding (65 ∷ 66 ∷ []);
          };
        }
        ∷ [];
  };
  pass = none;
  sweep = none;
  asked = [];
  sent = [];
  flushed = [];
}

abbrev scripts : ℕ → List WriteResult
scripts k = wrote 4 ∷ wrote 7 ∷ []

abbrev good_calls : Calls
good_calls = record {
  listen_sock = pos 4;
  reuse_ok = true;
  nonblocking_ok = true;
  bind_ok = true;
  listen_ok = true;
}

no_more_answers_example : tally nine.head (whose final.sent) ≤ tally nine.head (whose final.asked)
no_more_answers_example = no_more_answers always memory 2 idle_poller demo nine.head ran.0

-- A server with one task, of the peer that connection 0 has.
abbrev task : Msg
task = record {
  msg_head = record { cur_seq = 3; tcp_conn = 0 };
  rpt = record { rpt_head = record { rpt_len = 8; type = 0 }; rpt_buffer = fresh };
}

abbrev asking : System
asking = record loaded {
  tasks = task ∷ [];
  send = record {
    stop = false;
    msg_event_queue_size = 0;
    sem_event_queue = 0;
    msg_event_queue = [];
  };
}

abbrev all_at_once : ℕ → List WriteResult
all_at_once k = wrote 28 ∷ []

task-AllSendable : (a : Msg) × (answer task ≡ ok a) × AllSendable memory all_at_once 0 (a ∷ [])
task-AllSendable =
    let (a, e, head, _, v, width, _) = answer_lem task in
    let current : is_current memory a ≡ true =
      subst (λ k. ((memory k.tcp_conn).cur_sequence == k.cur_seq) ≡ true) (sym head) refl in
    (
      a,
      e,
      (
        inr (
          current,
          record {
            body = v;
            small = omega (arith, width);
            few_or_many = inl (omega (arith, width));
            channel = refl;
            direct = refl;
            taken = subst (λ n. Takes (n + 9) (all_at_once 0)) (sym width) (omega arith, refl);
          },
        ),
        tt,
      ),
    )

task_answered_example :
    (s' : System) × (runs always
        (run_task 0 ∷ begin_pass ∷ one_pass all_at_once 0 (task-AllSendable.0 ∷ []))
        asking
      ≡ some (ok s'))
    × (s'.sent ≡ due memory (task-AllSendable.0 ∷ []))
    × (s'.send.msg_event_queue ≡ [])
    × (s'.tasks ≡ [])
    × (s'.pool.conns ≡ memory)
task_answered_example =
    task_answered always all_at_once 0 task [] asking refl refl task-AllSendable.1
      task-AllSendable.2

free_connections_example :
    AllDistinct final.pool.free_connection_list
    × All (λ i. has_channel (final.pool.conns i) ≡ false) final.pool.free_connection_list
free_connections_example = free_connections always memory 2 idle_poller demo ran.0

-- The thread pool has five threads after the set-up.
boot_threads :
    length (boot {A = ℕ} always memory (some (pos 3)) 40 41 0 2 7 5 good_calls).work_pool.threads
    ≡ 5
unfolding boot
boot_threads = refl
