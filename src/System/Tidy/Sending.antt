-- ===== src/System/Tidy/Sending.antt =====
-- What the threads that answer, and the writing of a connection, leave alone.
use tiny_network_repository.Prelude.{ℕ, refl, List, [], ◌∷◌, Option, none, some, ◌==◌, ltb, if_lem}
use tiny_network_repository.Prelude.Outcome.{
  Outcome, ok, err, WhenOk->>=, WhenOk-vacuous, WhenDone, WhenDone-map,
}
use tiny_network_repository.Buffer.{Buffer}
use tiny_network_repository.Codec.{Msg, encode}
use tiny_network_repository.TcpConnection.Output.{
  WriteResult, has_channel, send, minus_one, tcp_handle_write,
}
use tiny_network_repository.SendThread.{Sending, send_one, send_encoded}
use tiny_network_repository.SendThread.Pass.{is_current}
use tiny_network_repository.App.{answer}
use tiny_network_repository.System.{System, Passing}
use tiny_network_repository.System.Loop.{writing}
use tiny_network_repository.System.Passes.{
  running, beginning_pass, now_sending, send_from, sending_next, end_from, ending_pass,
}
use tiny_network_repository.System.Known.{at_update}
use tiny_network_repository.System.Writer.{send-SamePeer, tcp_handle_write-SamePeer}
use tiny_network_repository.System.Vacant.{IsTidy, IsAlike, IsVacant-IsAlike, IsVacant-update}

-- Sending leaves each connection its channel and its pool.
send_one-IsAlike :
    (script : List WriteResult) (m : Msg) (w : Sending)
    → WhenDone (λ w'. (j : ℕ) → IsAlike (w.conns j) (w'.conns j)) (send_one script m w)
unfolding send_one
send_one-IsAlike script m w =
    if_lem (WhenDone Q) (is_current w.conns m) (λ e. encoded (encode m.rpt)) (λ e. unchanged)
  where
    Q : Sending → Type 0
    Q w' = (j : ℕ) → IsAlike (w.conns j) (w'.conns j)

    unchanged : (j : ℕ) → IsAlike (w.conns j) (w.conns j)
    unchanged j = record { channel = refl; pool = refl }

    encoded : (o : Outcome Buffer) → WhenDone Q (send_encoded script m w o)
    encoded (err x) = tt
    encoded (ok b) =
        let i = m.msg_head.tcp_conn in
        WhenDone-map Q (send script b (w.conns i) w.poller) _
          (send-SamePeer script b (w.conns i) w.poller)
          (λ r v.
            let there =
              at_update (λ j c'. IsAlike (w.conns j) c') w.conns i r.conn
                (record { channel = v.channel; pool = v.pool }) unchanged in
            if_lem Q (r.result == minus_one) (λ e. there) (λ e. there))

send_from-IsTidy :
    (script : List WriteResult) (s : System) (p : Passing) (left : List Msg)
    → IsTidy s
    → WhenDone IsTidy (send_from script left p s)
send_from-IsTidy script s p [] t = tt
send_from-IsTidy script s p (m ∷ ms) t =
    let w = now_sending s p.sending in
    WhenDone-map IsTidy (send_one script m w) _ (send_one-IsAlike script m w)
      (λ w' alike. IsVacant-IsAlike alike t)

pub sending_next-IsTidy :
    (script : List WriteResult) (s : System) (o : Option Passing)
    → IsTidy s
    → WhenDone IsTidy (sending_next script o s)
sending_next-IsTidy script s none t = tt
sending_next-IsTidy script s (some p) t = send_from-IsTidy script s p p.left t

pub beginning_pass-IsTidy :
    (s : System) (o : Option Passing) → IsTidy s → WhenDone IsTidy (beginning_pass o s)
beginning_pass-IsTidy s (some p) t = tt
beginning_pass-IsTidy s none t =
    if_lem (WhenDone IsTidy) (ltb 0 s.send.sem_event_queue)
      (λ e. if_lem (WhenDone IsTidy) (ltb 0 s.send.msg_event_queue_size) (λ f. t) (λ f. tt))
      (λ e. tt)

end_from-IsTidy :
    (s : System) (p : Passing) (left : List Msg) → IsTidy s → WhenDone IsTidy (end_from left p s)
end_from-IsTidy s p (m ∷ ms) t = tt
end_from-IsTidy s p [] t = t

pub ending_pass-IsTidy :
    (s : System) (o : Option Passing) → IsTidy s → WhenDone IsTidy (ending_pass o s)
ending_pass-IsTidy s none t = tt
ending_pass-IsTidy s (some p) t = end_from-IsTidy s p p.left t

pub running-IsTidy :
    (s : System) (o : Option Passing) (p : Option (Msg × List Msg))
    → IsTidy s
    → WhenDone IsTidy (running o p s)
running-IsTidy s (some p) q t = tt
running-IsTidy s none none t = tt
running-IsTidy s none (some (m, rest)) t =
    WhenOk->>= IsTidy (answer m) _ (WhenOk-vacuous (answer m)) (λ a u. t)

pub writing-IsTidy :
    (i : ℕ) (script : List WriteResult) (s : System)
    → IsTidy s
    → WhenDone IsTidy (writing i script s)
writing-IsTidy i script s t =
    let c = s.pool.conns i in
    if_lem (WhenDone IsTidy) (has_channel c)
      (λ e.
        WhenDone-map IsTidy (tcp_handle_write script c s.poller) _
          (tcp_handle_write-SamePeer script c s.poller)
          (λ r v. IsVacant-update i r.0 (record { channel = v.channel; pool = v.pool }) t))
      (λ e. tt)
