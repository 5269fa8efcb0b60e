-- ===== src/SendThread/Late.antt =====
-- The time between the comparison of the sequence numbers and the send, in which the thread holds no
-- lock on the connection.
use tiny_network_repository.Prelude.{
  ℕ, ◌^◌, ◌<◌, ◌≡◌, ◌≢◌, if◌then◌else◌, ap, arith, Bool, true, false, List, some, ◌==◌,
}
use tiny_network_repository.Prelude.Outcome.{ok, add64}
use tiny_network_repository.Codec.{Msg, encode}
use tiny_network_repository.Poller.{CtlCall}
use tiny_network_repository.TcpConnection.{init, reset}
use tiny_network_repository.TcpConnection.Output.{WriteResult, has_channel}
use tiny_network_repository.TcpConnectionPool.{Opening, open_with, update}
use tiny_network_repository.SendThread.{Sending, send_encoded}
use tiny_network_repository.SendThread.Pass.{is_current, IsReady, sent, send_encoded_done}

-- The connection of a message is closed, and given to another descriptor.
abbrev pub handed_on : (CtlCall → Bool) → Opening → ℕ → Sending → Sending
handed_on ctl_ok o i s =
    let (ended, p, closed) = reset (s.conns i) s.poller in
    let (c, p') = open_with ctl_ok o ended p in record s { conns = update s.conns i c; poller = p' }

-- A message that is for the peer that its connection has is compared, then the connection is closed
-- and given to another descriptor, and then the message, which can be encoded, is sent, to a socket
-- that takes it: the message is not for the new peer, but its whole frame goes out on the
-- connection that this peer now has, and the message is erased.
pub handed_on_lem :
    (ctl_ok : CtlCall → Bool) (o : Opening) (script : List WriteResult) (m : Msg) (s : Sending)
    → is_current s.conns m ≡ true
    → m.msg_head.cur_seq < 2 ^ 64
    → IsReady script m
    → let i = m.msg_head.tcp_conn in
      let s' = handed_on ctl_ok o i s in
      ((s'.conns i).peer ≡ o.peer)
      × ((s'.conns i).fd ≡ o.fd)
      × (is_current s'.conns m ≡ false)
      × (send_encoded script m s' (encode m.rpt) ≡ some (ok (sent m s')))
unfolding init reset
handed_on_lem ctl_ok o script m s e small v =
    let i = m.msg_head.tcp_conn in
    let old = (s.conns i).cur_sequence in
    let ended = (reset (s.conns i) s.poller).0 in
    let c = (open_with ctl_ok o ended (reset (s.conns i) s.poller).1).0 in
    let itself : (i == i) ≡ true = ground arith in
    let here : update s.conns i c i ≡ c = ap (λ (b : Bool). if b then c else s.conns i) itself in
    let was : old ≡ m.msg_head.cur_seq = ground arith in
    let now : (update s.conns i c i).cur_sequence ≡ add64 (add64 old 1) 1 =
      ap (λ d. d.cur_sequence) here in
    let other : (update s.conns i c i).cur_sequence ≢ m.msg_head.cur_seq =
      λ same. absurd (omega (arith, now, was, small, same)) in
    (
      ap (λ d. d.peer) here,
      ap (λ d. d.fd) here,
      ground (arith, other),
      send_encoded_done script m (handed_on ctl_ok o i s) v (ap has_channel here)
          (ap (λ d. d.use_send_event) here),
    )
