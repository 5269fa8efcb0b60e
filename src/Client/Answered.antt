-- ===== src/Client/Answered.antt =====
-- The answer of the business task in app/tiny_server.cxx, as the client prints it.
use tiny_network_repository.Prelude.{text_codes, ◌≡◌, ap, arith, List, ◌++◌}
use tiny_network_repository.Prelude.Outcome.{ok}
use tiny_network_repository.Buffer.{Buffer, Cell, contents}
use tiny_network_repository.Codec.{Msg, RptHead, encode}
use tiny_network_repository.App.{answer}
use tiny_network_repository.App.Answer.{answer_lem}
use tiny_network_repository.Client.{received, print_report}
use tiny_network_repository.Client.Print.{AllPositive, print_report-encode}

-- The business task answers every message, to the connection and the peer of the message; of the
-- bytes of the encoded answer, when they come with others behind them, the client prints the text.
pub answer_printed :
    (m : Msg) (rest : List Cell)
    → (a : Msg) × (b : Buffer) × (answer m ≡ ok a)
      × (a.msg_head ≡ m.msg_head)
      × (encode a.rpt ≡ ok b)
      × (print_report (received (contents b ++ rest)) ≡ ok (text_codes "recv ok, notify you"))
answer_printed m rest =
    let (a, e, head, kind, v, width, text) = answer_lem m in
    let len : a.rpt.rpt_head.rpt_len ≡ 27 = ap (λ (h : RptHead). h.rpt_len) kind in
    let (b, enc, printed) =
      print_report-encode a.rpt (text_codes "recv ok, notify you") rest v text len (omega arith)
        positive in
    (a, b, e, head, enc, printed)
  where
    positive : AllPositive (text_codes "recv ok, notify you")
    positive = omega arith
