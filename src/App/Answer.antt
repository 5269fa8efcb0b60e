-- ===== src/App/Answer.antt =====
-- The answer of the business task, as the peer reads it.
use tiny_network_repository.Prelude.{◌≡◌, refl, ◌∙◌, ap, arith, List, ◌++◌, length, inl}
use tiny_network_repository.Prelude.Outcome.{ok}
use tiny_network_repository.Buffer.{Buffer, Cell, fresh, size, contents}
use tiny_network_repository.Buffer.Valid.{IsValid, fresh-IsValid, length-contents}
use tiny_network_repository.Buffer.Append.{append_lem}
use tiny_network_repository.Codec.{Msg, Rpt, RptHead, encode, decode}
use tiny_network_repository.Codec.Decode.{decoded}
use tiny_network_repository.Codec.RoundTrip.{decode-encode}
use tiny_network_repository.App.{answer, answer_text}

-- The task answers every message, to the connection and the peer of the message, with a report of
-- type 1 that holds the text.
pub answer_lem :
    (m : Msg)
    → (a : Msg) × (answer m ≡ ok a)
      × (a.msg_head ≡ m.msg_head)
      × (a.rpt.rpt_head ≡ record { rpt_len = 27; type = 1 })
      × IsValid a.rpt.rpt_buffer
      × (size a.rpt.rpt_buffer ≡ 19)
      × (contents a.rpt.rpt_buffer ≡ answer_text)
unfolding answer
answer_lem m =
    let (body, e, v, text) =
      append_lem fresh-IsValid answer_text 19 (omega arith) (unfold fresh in omega arith)
        (unfold fresh size in omega arith) (unfold fresh size in omega arith) in
    let whole : contents body ≡ answer_text = text ∙ (unfold contents fresh size in refl) in
    let rpt : Rpt = record { rpt_head = record { rpt_len = 27; type = 1 }; rpt_buffer = body } in
    (
      record { msg_head = m.msg_head; rpt = rpt },
      rw e,
      refl,
      refl,
      v,
      omega (arith, length-contents v, ap length whole),
      whole,
    )

-- The answer goes to the connection and the peer of the message; encoded and decoded again, with any bytes behind it, is the text.
pub answer_read_back :
    (m : Msg) (rest : List Cell)
    → (a : Msg) × (b c : Buffer) × (answer m ≡ ok a)
      × (a.msg_head ≡ m.msg_head)
      × (encode a.rpt ≡ ok b)
      × (decode (contents b ++ rest) (length (contents b ++ rest)) ≡ ok (decoded 27 1 c))
      × (contents c ≡ answer_text)
answer_read_back m rest =
    let (a, e, head, kind, v, width, text) = answer_lem m in
    let len : a.rpt.rpt_head.rpt_len ≡ 27 = ap (λ (h : RptHead). h.rpt_len) kind in
    let type : a.rpt.rpt_head.type ≡ 1 = ap (λ (h : RptHead). h.type) kind in
    let (b, c, enc, dec, _, _, same) =
      decode-encode a.rpt rest v (omega (arith, width, len)) (omega (arith, len))
        (omega (arith, type)) (inl (omega (arith, width))) in
    (
      a,
      b,
      c,
      e,
      head,
      enc,
      dec ∙ ap (λ (h : RptHead). ok (decoded h.rpt_len h.type c)) kind,
      same ∙ text,
    )
