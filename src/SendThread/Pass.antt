-- ===== src/SendThread/Pass.antt =====
-- What a pass over the queue sends.

use mathlib.Core.Path.{fun_ext, ap₂, subst}
use native.Mathlib.Decide.{ℕ_discrete}
use tiny_network_repository.Prelude.{
  ℕ, ◌+◌, ◌≤◌, ◌<◌, ◌≡◌, sym, ◌∙◌, ap, arith, Bool, true, false, refl, ◌⊎◌, inl, inr, List, [], ◌∷◌,
  ◌++◌, some, length, if◌then◌else◌, ◌==◌, append_assoc, append-nil,
}
use tiny_network_repository.Prelude.Outcome.{ok}
use tiny_network_repository.Buffer.{Buffer, Cell, size, contents, max_alloc}
use tiny_network_repository.Buffer.Valid.{IsValid, length-contents}
use tiny_network_repository.Codec.{Msg, header, encode}
use tiny_network_repository.Codec.Encode.{encode_lem}
use tiny_network_repository.TcpConnection.{TcpConnection}
use tiny_network_repository.TcpConnection.Output.{WriteResult, Reply, send, minus_one, has_channel}
use tiny_network_repository.TcpConnection.Isend.{Takes}
use tiny_network_repository.TcpConnection.Send.{send_complete}
use tiny_network_repository.TcpConnectionPool.{update}
use tiny_network_repository.SendThread.{Sending, send_encoded, send_one, send_all, erase_msg}

-- The message is for the peer that its connection has now.
abbrev pub is_current : (ℕ → TcpConnection) → Msg → Bool
is_current conns m = (conns m.msg_head.tcp_conn).cur_sequence == m.msg_head.cur_seq

-- A report that can be encoded, on a connection that sends directly, to a socket that takes it.
pub record IsSendable (conns : ℕ → TcpConnection) (script : List WriteResult) (m : Msg)
    : Type 0 where
  pub body : IsValid m.rpt.rpt_buffer
  pub small : size m.rpt.rpt_buffer + 9 < max_alloc
  pub few_or_many : (size m.rpt.rpt_buffer ≤ 503) ⊎ (512 < size m.rpt.rpt_buffer)
  pub channel : has_channel (conns m.msg_head.tcp_conn) ≡ true
  pub direct : (conns m.msg_head.tcp_conn).use_send_event ≡ false
  pub taken : Takes (size m.rpt.rpt_buffer + 9) script

abbrev pub AllSendable : (ℕ → TcpConnection) → (ℕ → List WriteResult) → ℕ → List Msg → Type 0
AllSendable conns scripts k [] = Unit {0}
AllSendable conns scripts k (m ∷ ms) =
    ((is_current conns m ≡ false) ⊎ ((is_current conns m ≡ true) × IsSendable conns (scripts k) m))
    × AllSendable conns scripts (k + 1) ms

-- The frames of the current messages, in the order of the queue.
abbrev pub frames : (ℕ → TcpConnection) → List Msg → List (ℕ × List Cell)
frames conns [] = []
frames conns (m ∷ ms) =
    if is_current conns m
    then (m.msg_head.tcp_conn, header m.rpt.rpt_head ++ contents m.rpt.rpt_buffer) ∷ frames conns ms
    else frames conns ms

update-same : (conns : ℕ → TcpConnection) (i : ℕ) → update conns i (conns i) ≡ conns
update-same conns i = fun_ext λ j. elim (ℕ_discrete i j) [
  | yes e ↦ let test : (i == j) ≡ true = ground arith in rw test (ap conns e)
  | no e ↦ let test : (i == j) ≡ false = ground arith in rw test
]

-- A message for an earlier peer is erased, and nothing of it goes out.
pub send_one_expired :
    (script : List WriteResult) (m : Msg) (s : Sending)
    → is_current s.conns m ≡ false
    → send_one script m s ≡ some (ok (erase_msg s))
unfolding send_one
send_one_expired script m s e = rw e

-- A report that can be encoded, and a socket that takes its frame.
pub record IsReady (script : List WriteResult) (m : Msg) : Type 0 where
  pub body : IsValid m.rpt.rpt_buffer
  pub small : size m.rpt.rpt_buffer + 9 < max_alloc
  pub few_or_many : (size m.rpt.rpt_buffer ≤ 503) ⊎ (512 < size m.rpt.rpt_buffer)
  pub taken : Takes (size m.rpt.rpt_buffer + 9) script

-- The frame of the message went out on its connection.
abbrev pub sent : Msg → Sending → Sending
sent m s = record s {
  erased = s.erased + 1;
  wire = s.wire ++ ((m.msg_head.tcp_conn, header m.rpt.rpt_head ++ contents m.rpt.rpt_buffer) ∷ []);
}

-- `send` is called with the frame, returns 0, and leaves the connection as it was.
send_reply :
    (script : List WriteResult) (m : Msg) (s : Sending)
    → IsReady script m
    → has_channel (s.conns m.msg_head.tcp_conn) ≡ true
    → (s.conns m.msg_head.tcp_conn).use_send_event ≡ false
    → (b b' : Buffer) × (encode m.rpt ≡ ok b)
      × (send script b (s.conns m.msg_head.tcp_conn) s.poller
          ≡ some (
              ok (record {
                result = 0;
                buffer = b';
                conn = s.conns m.msg_head.tcp_conn;
                poller = s.poller;
                wire = contents b;
              })))
      × (contents b ≡ header m.rpt.rpt_head ++ contents m.rpt.rpt_buffer)
send_reply script m s v channel direct =
    let (b, enc, w, laid) = encode_lem m.rpt v.body v.small v.few_or_many in
    let width : size b ≡ size m.rpt.rpt_buffer + 9 =
      omega (arith, length-contents w, ap length laid, length-contents v.body) in
    let (b', done, _) =
      send_complete b (s.conns m.msg_head.tcp_conn) s.poller script w channel direct
        (omega (arith, width)) (subst (λ n. Takes n script) (sym width) v.taken) in
    (b, b', enc, done, laid)

pub send_taken :
    (script : List WriteResult) (m : Msg) (s : Sending)
    → IsReady script m
    → has_channel (s.conns m.msg_head.tcp_conn) ≡ true
    → (s.conns m.msg_head.tcp_conn).use_send_event ≡ false
    → (b : Buffer) × (r : Reply) × (encode m.rpt ≡ ok b)
      × (send script b (s.conns m.msg_head.tcp_conn) s.poller ≡ some (ok r))
      × ((r.result == minus_one) ≡ false)
send_taken script m s v channel direct =
    let (b, b', enc, done, laid) = send_reply script m s v channel direct in (b, _, enc, done, refl)

-- Whoever is the peer of the connection.
pub send_encoded_done :
    (script : List WriteResult) (m : Msg) (s : Sending)
    → IsReady script m
    → has_channel (s.conns m.msg_head.tcp_conn) ≡ true
    → (s.conns m.msg_head.tcp_conn).use_send_event ≡ false
    → send_encoded script m s (encode m.rpt) ≡ some (ok (sent m s))
send_encoded_done script m s v channel direct =
    let (b, b', enc, done, laid) = send_reply script m s v channel direct in
    rw (enc, done)
      (ap₂ (λ conns bytes. some (ok (sent_as conns bytes)))
        (update-same s.conns m.msg_head.tcp_conn) laid)
  where
    sent_as : (ℕ → TcpConnection) → List Cell → Sending
    sent_as conns bytes = record s {
      conns = conns;
      erased = s.erased + 1;
      wire = s.wire ++ ((m.msg_head.tcp_conn, bytes) ∷ []);
    }

pub as_IsReady :
    {conns : ℕ → TcpConnection} {script : List WriteResult} {m : Msg}
    → IsSendable conns script m
    → IsReady script m
as_IsReady v = record {
  body = v.body;
  small = v.small;
  few_or_many = v.few_or_many;
  taken = v.taken;
}

pub send_one_done :
    (script : List WriteResult) (m : Msg) (s : Sending)
    → is_current s.conns m ≡ true
    → IsSendable s.conns script m
    → send_one script m s ≡ some (ok (sent m s))
unfolding send_one
send_one_done script m s e v = rw e (send_encoded_done script m s (as_IsReady v) v.channel v.direct)

one_more : (n : ℕ) (ms : List Msg) (m : Msg) → n + 1 + length ms ≡ n + length (m ∷ ms)
one_more n ms m = omega arith

-- Where every current message of the queue has a body that can be encoded and a connection that
-- sends directly, to a socket that takes the bytes, a pass empties the queue: each current message
-- goes out as its frame, in order, the others go nowhere, and every one is erased.
pub send_all_lem :
    (scripts : ℕ → List WriteResult) (k : ℕ) (ms : List Msg) (s : Sending)
    → AllSendable s.conns scripts k ms
    → send_all scripts k ms s
      ≡ some (ok (record s { erased = s.erased + length ms; wire = s.wire ++ frames s.conns ms }))
unfolding send_all
send_all_lem scripts k [] s h =
    ap₂ (λ n w. some (ok (record s { erased = n; wire = w }))) (omega arith)
      (sym (append-nil s.wire))
send_all_lem scripts k (m ∷ ms) s (inl old, hs) =
    rw (send_one_expired (scripts k) m s old, old)
      (send_all_lem scripts (k + 1) ms (erase_msg s) hs
        ∙ ap (λ n. some (ok (record s { erased = n; wire = s.wire ++ frames s.conns ms })))
            (one_more s.erased ms m))
send_all_lem scripts k (m ∷ ms) s (inr (now, v), hs) =
    rw (send_one_done (scripts k) m s now v, now)
      (send_all_lem scripts (k + 1) ms (sent m s) hs
        ∙ ap₂ (λ n w. some (ok (record s { erased = n; wire = w }))) (one_more s.erased ms m)
            (append_assoc s.wire (_ ∷ []) (frames s.conns ms)))
