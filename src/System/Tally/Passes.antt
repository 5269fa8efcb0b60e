-- ===== src/System/Tally/Passes.antt =====
-- Sending counts a message once at most.

use tiny_network_repository.Prelude.{
  ◌+◌, ◌≤◌, ◌≡◌, refl, ◌∙◌, ap, arith, not, false, List, [], ◌∷◌, ◌++◌, Option, none, some, length,
  ◌==◌, ltb, if_lem,
}
use tiny_network_repository.Prelude.Outcome.{
  Outcome, ok, err, WhenDone, WhenDone-map, WhenDone-itself,
}
use tiny_network_repository.Buffer.{Buffer}
use tiny_network_repository.Codec.{Msg, MsgHead, encode}
use tiny_network_repository.TcpConnection.Output.{WriteResult, send, minus_one}
use tiny_network_repository.TcpConnectionPool.{update}
use tiny_network_repository.SendThread.{Sending, send_one, send_encoded, erase_msg, keep_msg}
use tiny_network_repository.SendThread.Pass.{is_current}
use tiny_network_repository.System.{System, Who, Passing}
use tiny_network_repository.System.Passes.{
  now_sending, replied, is_taken, receipt, after_one, send_from, sending_next, beginning_pass,
  end_from, ending_pass,
}
use tiny_network_repository.System.Tally.{
  tally, heads, whose, IsCounted, tally-heads, tally-whose, tally-under_way,
}

module _ (h : MsgHead) where
  pub beginning_pass-IsCounted :
      (s : System) (o : Option Passing)
      → s.pass ≡ o
      → IsCounted h s
      → WhenDone (IsCounted h) (beginning_pass o s)
  beginning_pass-IsCounted s (some p) at le = tt
  beginning_pass-IsCounted s none at le =
      if_lem (WhenDone (IsCounted h)) (ltb 0 s.send.sem_event_queue)
        (λ e.
          if_lem (WhenDone (IsCounted h)) (ltb 0 s.send.msg_event_queue_size)
            (λ f. omega (
              arith,
              le,
              tally-under_way h s none at,
              tally-heads h s.tasks (s.send.msg_event_queue ++ []),
              tally-heads h s.send.msg_event_queue [],
            ))
            (λ f. tt))
        (λ e. tt)

  -- A message is kept, and then it was for nobody, or not kept, and then for one at most.
  abbrev IsOneKept : List WriteResult → Msg → Sending → Sending → Type 0
  IsOneKept script m w w' =
      tally h (whose (receipt script m w w')) + tally h (heads w'.kept)
      ≤ tally h (heads (m ∷ [])) + tally h (heads w.kept)

  receipt-one :
      (script : List WriteResult) (m : Msg) (w w' : Sending)
      → tally h (whose (receipt script m w w')) ≤ tally h (heads (m ∷ []))
  receipt-one script m w w' =
      let P : List Who → Type 0 = λ l. tally h (whose l) ≤ tally h (heads (m ∷ [])) in
      if_lem P (length w'.wire == length w.wire) (λ e. omega arith)
        (λ e.
          if_lem P (is_taken (replied script m w (encode m.rpt))) (λ f. omega arith)
            (λ f. omega arith))

  receipt-kept :
      (script : List WriteResult) (m : Msg) (w w' : Sending)
      → is_taken (replied script m w (encode m.rpt)) ≡ false
      → tally h (whose (receipt script m w w')) ≡ 0
  receipt-kept script m w w' refused =
      let P : List Who → Type 0 = λ l. tally h (whose l) ≡ 0 in
      if_lem P (length w'.wire == length w.wire) (λ e. refl) (λ e. rw refused refl)

  send_one-IsOneKept :
      (script : List WriteResult) (m : Msg) (w : Sending)
      → WhenDone (IsOneKept script m w) (send_one script m w)
  unfolding send_one
  send_one-IsOneKept script m w =
      if_lem (WhenDone (IsOneKept script m w)) (is_current w.conns m)
        (λ e. encoded (encode m.rpt) refl)
        (λ e. let le = receipt-one script m w (erase_msg w) in omega (arith, le))
    where
      encoded :
          (o : Outcome Buffer)
          → encode m.rpt ≡ o
          → WhenDone (IsOneKept script m w) (send_encoded script m w o)
      encoded (err x) enc = tt
      encoded (ok b) enc =
          let sends = send script b (w.conns m.msg_head.tcp_conn) w.poller in
          WhenDone-map (IsOneKept script m w) sends _ (WhenDone-itself sends) (λ r u.
            let s : Sending = record w {
              conns = update w.conns m.msg_head.tcp_conn r.conn;
              poller = r.poller;
              wire = w.wire ++ ((m.msg_head.tcp_conn, r.wire) ∷ []);
            } in
            if_lem (IsOneKept script m w) (r.result == minus_one)
              (λ e.
                let refused : is_taken (replied script m w (encode m.rpt)) ≡ false =
                  ap (λ o'. is_taken (replied script m w o')) enc ∙ ap is_taken u ∙ ap not e in
                omega (
                  arith,
                  receipt-kept script m w (keep_msg m s) refused,
                  tally-heads h w.kept (m ∷ []),
                ))
              (λ e. let le = receipt-one script m w (erase_msg s) in omega (arith, le)))

  sent_one-IsCounted :
      (s : System) (p : Passing) (script : List WriteResult) (m : Msg) (ms : List Msg)
      (w' : Sending)
      → s.pass ≡ some p
      → p.left ≡ m ∷ ms
      → IsOneKept script m (now_sending s p.sending) w'
      → IsCounted h s
      → IsCounted h (after_one script m ms (now_sending s p.sending) s w')
  sent_one-IsCounted s p script m ms w' at here one le =
      let w = now_sending s p.sending in
      let split : tally h (heads p.left) ≡ tally h (heads (m ∷ ms)) =
        ap (λ l. tally h (heads l)) here in
      omega (
        arith,
        le,
        one,
        split,
        tally-under_way h s (some p) at,
        tally-heads h p.left p.sending.kept,
        tally-heads h s.tasks (ms ++ w'.kept),
        tally-heads h ms w'.kept,
        tally-whose h s.sent (receipt script m w w'),
      )

  send_from-IsCounted :
      (script : List WriteResult) (s : System) (p : Passing) (left : List Msg)
      → s.pass ≡ some p
      → p.left ≡ left
      → IsCounted h s
      → WhenDone (IsCounted h) (send_from script left p s)
  send_from-IsCounted script s p [] at here le = tt
  send_from-IsCounted script s p (m ∷ ms) at here le =
      let w = now_sending s p.sending in
      WhenDone-map (IsCounted h) (send_one script m w) _ (send_one-IsOneKept script m w)
        (λ w' one. sent_one-IsCounted s p script m ms w' at here one le)

  pub sending_next-IsCounted :
      (script : List WriteResult) (s : System) (o : Option Passing)
      → s.pass ≡ o
      → IsCounted h s
      → WhenDone (IsCounted h) (sending_next script o s)
  sending_next-IsCounted script s none at le = tt
  sending_next-IsCounted script s (some p) at le = send_from-IsCounted script s p p.left at refl le

  end_from-IsCounted :
      (s : System) (p : Passing) (left : List Msg)
      → s.pass ≡ some p
      → p.left ≡ left
      → IsCounted h s
      → WhenDone (IsCounted h) (end_from left p s)
  end_from-IsCounted s p (m ∷ ms) at here le = tt
  end_from-IsCounted s p [] at here le =
      let none_left : tally h (heads p.left) ≡ 0 = ap (λ l. tally h (heads l)) here in
      omega (
        arith,
        le,
        none_left,
        tally-under_way h s (some p) at,
        tally-heads h p.left p.sending.kept,
        tally-heads h s.tasks p.sending.kept,
      )

  pub ending_pass-IsCounted :
      (s : System) (o : Option Passing)
      → s.pass ≡ o
      → IsCounted h s
      → WhenDone (IsCounted h) (ending_pass o s)
  ending_pass-IsCounted s none at le = tt
  ending_pass-IsCounted s (some p) at le = end_from-IsCounted s p p.left at refl le
