-- ===== src/App/Frames.antt =====
-- Frames, a stream of them, and what the read callback does with the first one of a buffer.
use tiny_network_repository.Prelude.{
  ℕ, suc, ◌+◌, ◌≤◌, ◌<◌, ◌≡◌, sym, ◌∙◌, ap, arith, Bool, List, [], ◌∷◌, ◌++◌, length, drop,
  take-append-drop, drop-append, length-append, append_assoc,
}
use tiny_network_repository.Prelude.Int.{pos}
use tiny_network_repository.Prelude.Outcome.{ok, add64}
use tiny_network_repository.Buffer.{Buffer, Cell, size, contents, from_data, consumed}
use tiny_network_repository.Buffer.Valid.{IsValid, contents-consumed, length-contents}
use tiny_network_repository.Codec.{Rpt, RptHead, Msg, header, decode}
use tiny_network_repository.Codec.RoundTrip.{decode_frame}
use tiny_network_repository.TcpConnection.Input.{get_recv_buffer_addr, get_recv_buffer_size}
use tiny_network_repository.App.{Reading, waiting, read_task, take_report}

pub record Frame : Type 0 where
  pub head : RptHead
  pub body : List Cell

-- The length field counts the eight bytes behind it and the body.
pub record IsFramed (f : Frame) : Type 0 where
  pub counted : f.head.rpt_len ≡ length f.body + 8
  pub len_small : f.head.rpt_len < 65536
  pub type_small : f.head.type < 65536

abbrev pub AllFramed : List Frame → Type 0
AllFramed [] = Unit {0}
AllFramed (f ∷ fs) = IsFramed f × AllFramed fs

abbrev pub stream : List Frame → List Cell
stream [] = []
stream (f ∷ fs) = header f.head ++ (f.body ++ stream fs)

-- The messages of the frames, one for one, for one peer of one connection.
abbrev pub Delivered : ℕ → ℕ → List Frame → List Msg → Type 0
Delivered seq self [] [] = Unit {0}
Delivered seq self [] (m ∷ ms) = ⊥
Delivered seq self (f ∷ fs) [] = ⊥
Delivered seq self (f ∷ fs) (m ∷ ms) =
    (m.msg_head.cur_seq ≡ seq)
    × (m.msg_head.tcp_conn ≡ self)
    × (m.rpt.rpt_head ≡ f.head)
    × IsValid m.rpt.rpt_buffer
    × (contents m.rpt.rpt_buffer ≡ f.body)
    × Delivered seq self fs ms

-- The memory from `data` on: the stored bytes, and what lies behind them.
pub memory : (b : Buffer) → contents b ++ drop (size b) (from_data b) ≡ from_data b
unfolding contents
memory b = take-append-drop (size b) (from_data b)

pub read_step :
    (now self fuel n : ℕ) (stopped : Bool) (r : Reading) (rpt : Rpt)
    → decode (from_data r.conn.recv_buffer) (size r.conn.recv_buffer) ≡ ok (pos (suc n), rpt)
    → read_task now self stopped (suc fuel) r
      ≡ read_task now self stopped fuel (take_report stopped self (suc n) rpt r)
unfolding read_task get_recv_buffer_addr get_recv_buffer_size
read_step now self fuel n stopped r rpt e = rw e

-- The first frame of a buffer is decoded, and leaves the rest of the buffer.
pub first_frame :
    (b : Buffer) (f : Frame) (more : List Cell)
    → IsValid b
    → IsFramed f
    → contents b ≡ header f.head ++ (f.body ++ more)
    → (body : Buffer) × (decode (from_data b) (size b)
        ≡ ok (pos (suc f.head.rpt_len), record { rpt_head = f.head; rpt_buffer = body }))
      × IsValid body
      × (contents body ≡ f.body)
      × (suc f.head.rpt_len ≤ size b)
      × (contents (consumed b (suc f.head.rpt_len)) ≡ more)
first_frame b f more v w e =
    let (body, dec, u, c) =
      decode_frame f.head f.body (more ++ tail) (size b) w.counted w.len_small w.type_small
        (omega (arith, total)) in
    let counted : add64 1 f.head.rpt_len ≡ suc f.head.rpt_len = omega (arith, w.len_small) in
    let fits : suc f.head.rpt_len ≤ size b = omega (arith, total, w.counted) in
    (
      body,
      ap (λ m. decode m (size b)) laid
          ∙ dec
          ∙ ap (λ n. ok (pos n, record { rpt_head = f.head; rpt_buffer = body })) counted,
      u,
      c,
      fits,
      contents-consumed (suc f.head.rpt_len) fits v
          ∙ ap (drop (suc f.head.rpt_len)) e
          ∙ ap (λ n. drop n (header f.head ++ (f.body ++ more))) width
          ∙ drop-append (header f.head ++ f.body) more,
    )
  where
    tail : List Cell
    tail = drop (size b) (from_data b)

    laid : from_data b ≡ header f.head ++ (f.body ++ (more ++ tail))
    laid =
        sym (memory b)
        ∙ ap (λ c. c ++ tail) e
        ∙ ap (◌++◌ (header f.head)) (append_assoc f.body more tail)

    total : size b ≡ length f.body + length more + 9
    total = omega (arith, length-contents v, ap length e, length-append f.body more)

    width : suc f.head.rpt_len ≡ length (header f.head ++ f.body)
    width = omega (arith, w.counted)

pub read_none :
    (now self fuel : ℕ) (stopped : Bool) (r : Reading)
    → size r.conn.recv_buffer ≡ 0
    → read_task now self stopped (suc fuel) r ≡ ok (r, waiting)
unfolding read_task get_recv_buffer_addr get_recv_buffer_size decode
read_none now self fuel stopped r e = rw e
