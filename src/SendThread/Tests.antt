-- ===== src/SendThread/Tests.antt =====
-- A pass over a queue of three messages.
use tiny_network_repository.Prelude.{ℕ, ◌≡◌, refl, arith, inl, inr, List, [], ◌∷◌, some}
use tiny_network_repository.Prelude.Outcome.{ok}
use tiny_network_repository.Buffer.{fresh, size}
use tiny_network_repository.Codec.{Msg, Rpt}
use tiny_network_repository.TcpConnection.{TcpConnection}
use tiny_network_repository.TcpConnection.Output.{WriteResult, wrote}
use tiny_network_repository.SendThread.{Sending, send_all, create_thread, push_msg}
use tiny_network_repository.SendThread.Pass.{
  IsSendable, IsReady, frames, send_all_lem, is_current, sent,
}
use tiny_network_repository.SendThread.Late.{handed_on, handed_on_lem}
use tiny_network_repository.SendThread.{send_encoded}
use tiny_network_repository.Codec.{encode}
use tiny_network_repository.Poller.{CtlCall}
use tiny_network_repository.Prelude.{Bool, true, false}
use tiny_network_repository.Prelude.Int.{pos}
use tiny_network_repository.TcpConnectionPool.{Opening}
use tiny_network_repository.Samples.{holding, holding-IsValid, connection, idle_poller}

abbrev conns : ℕ → TcpConnection
conns i = connection fresh

abbrev reply : Rpt
reply = record { rpt_head = record { rpt_len = 10; type = 1 }; rpt_buffer = holding (65 ∷ 66 ∷ []) }

-- A message for the peer with the sequence number `seq`. The connections have peer 3.
abbrev msg_to : ℕ → Msg
msg_to seq = record { msg_head = record { cur_seq = seq; tcp_conn = 7 }; rpt = reply }

abbrev queue : List Msg
queue = msg_to 3 ∷ msg_to 1 ∷ msg_to 3 ∷ []

abbrev scripts : ℕ → List WriteResult
scripts k = wrote 4 ∷ wrote 7 ∷ []

abbrev start : Sending
start = record { kept = []; posted = 0; erased = 0; conns = conns; poller = idle_poller; wire = [] }

pushed : (push_msg (msg_to 3) create_thread).0.sem_event_queue ≡ 1
unfolding push_msg create_thread
pushed = refl

sendable : IsSendable conns (wrote 4 ∷ wrote 7 ∷ []) (msg_to 3)
unfolding size
sendable = record {
  body = holding-IsValid (65 ∷ 66 ∷ []) (omega arith);
  small = omega arith;
  few_or_many = inl (omega arith);
  channel = refl;
  direct = refl;
  taken = (omega arith, (omega arith, refl));
}

send_all_lem_example :
    send_all scripts 0 queue start
    ≡ some (ok (record start { erased = 3; wire = frames conns queue }))
send_all_lem_example =
    send_all_lem scripts 0 queue start
      (inr (refl, sendable), (inl refl, (inr (refl, sendable), tt)))

abbrev next_peer : Opening
next_peer = record { at = 41; next_id = 1; fd = pos 6; base = 2; local = 8; peer = 9; pool = 1 }

abbrev accepts : CtlCall → Bool
accepts k = true

ready : IsReady (wrote 4 ∷ wrote 7 ∷ []) (msg_to 3)
ready = record {
  body = sendable.body;
  small = sendable.small;
  few_or_many = sendable.few_or_many;
  taken = sendable.taken;
}

handed_on_lem_example :
    let s' = handed_on accepts next_peer 7 start in
    ((s'.conns 7).peer ≡ 9)
    × ((s'.conns 7).fd ≡ pos 6)
    × (is_current s'.conns (msg_to 3) ≡ false)
    × (send_encoded (wrote 4 ∷ wrote 7 ∷ []) (msg_to 3) s' (encode reply)
        ≡ some (ok (sent (msg_to 3) s')))
handed_on_lem_example =
    handed_on_lem accepts next_peer (wrote 4 ∷ wrote 7 ∷ []) (msg_to 3) start refl (omega arith)
      ready
