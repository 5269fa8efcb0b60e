-- ===== src/App/Parts.antt =====
-- The read callback on a buffer of whole frames, with the beginning of another one behind them.
use tiny_network_repository.Prelude.{
  ◌==◌, Bool-cases, ◌⊎◌, inl, inr, ℕ, zero, suc, ◌+◌, ◌≤◌, ◌<◌, ◌≡◌, refl, sym, ◌∙◌, ap, arith,
  false, List, [], ◌∷◌, ◌++◌, length, drop, append_assoc, append-nil,
}
use tiny_network_repository.Prelude.Int.{pos}
use tiny_network_repository.Prelude.Outcome.{ok, add64}
use tiny_network_repository.Buffer.{Buffer, Cell, size, contents, from_data, consumed}
use tiny_network_repository.Buffer.Valid.{IsValid, consumed-IsValid, length-contents}
use tiny_network_repository.Codec.{Rpt, RptHead, Msg, header, blank, decode}
use tiny_network_repository.Codec.RoundTrip.{decode_part}
use tiny_network_repository.TcpConnection.Input.{
  get_recv_buffer_addr, get_recv_buffer_size, consumed_recv_buffer_size,
}
use tiny_network_repository.App.{Reading, waiting, read_task, take_report, message}
use tiny_network_repository.App.Frames.{
  Frame, AllFramed, stream, Delivered, memory, read_step, first_frame, read_none,
}

-- Less than a frame, of which the header is there.
pub record IsCut (part : List Cell) : Type 0 where
  pub head : RptHead
  pub body : List Cell
  pub laid : part ≡ header head ++ body
  pub short : length body + 8 < head.rpt_len
  pub len_small : head.rpt_len < 65536
  pub type_small : head.type < 65536

-- What may stand behind the whole frames: nothing, or the beginning of a frame with its header.
abbrev pub IsPart : List Cell → Type 0
IsPart part = (part ≡ []) ⊎ IsCut part

waits_for_more :
    (b : Buffer) (part : List Cell)
    → IsValid b
    → contents b ≡ part
    → IsCut part
    → decode (from_data b) (size b) ≡ ok (pos 0, blank)
waits_for_more b part v e c =
    let tail = drop (size b) (from_data b) in
    let (k, width) = positive (size b) (omega (arith, total)) in
    ap (λ m. decode m (size b)) (laid tail refl)
    ∙ ap (decode (header c.head ++ (c.body ++ tail))) width
    ∙ decode_part c.head (c.body ++ tail) k c.len_small c.type_small
        (omega (arith, total, width, c.short))
  where
    total : size b ≡ length c.body + 9
    total = omega (arith, length-contents v, ap length e, ap length c.laid)

    laid :
        (tail : List Cell)
        → tail ≡ drop (size b) (from_data b)
        → from_data b ≡ header c.head ++ (c.body ++ tail)
    laid tail q =
        sym (memory b)
        ∙ ap (λ m. m ++ drop (size b) (from_data b)) (e ∙ c.laid)
        ∙ ap (λ t. header c.head ++ (c.body ++ t)) (sym q)

    positive : (n : ℕ) → 0 < n → (k : ℕ) × (n ≡ suc k)
    positive zero lt = absurd (omega arith)
    positive (suc k) lt = (k, refl)

read_part :
    (now self fuel : ℕ) (r : Reading) (part : List Cell)
    → IsValid r.conn.recv_buffer
    → contents r.conn.recv_buffer ≡ part
    → IsPart part
    → read_task now self false (suc fuel) r ≡ ok (r, waiting)
unfolding read_task get_recv_buffer_addr get_recv_buffer_size
read_part now self fuel r part v e (inl none_left) =
    read_none now self fuel false r (omega (arith, length-contents v, ap length (e ∙ none_left)))
read_part now self fuel r part v e (inr cut) = rw (waits_for_more r.conn.recv_buffer part v e cut)

-- The reading after the callback: another buffer, and more messages.
abbrev pub read_on : Buffer → List Msg → Reading → Reading
read_on b ms r = record r { conn = record r.conn { recv_buffer = b }; tasks = r.tasks ++ ms }

consumed_bounds :
    (b : Buffer) (n : ℕ) → ((consumed b n).end ≤ b.end) × ((consumed b n).capacity ≤ b.capacity)
unfolding consumed
consumed_bounds b n = elim (Bool-cases (size (record b { begin = add64 b.begin n }) == 0)) [
  | inl e ↦ rw e (omega arith, omega arith)
  | inr e ↦ rw e (omega arith, omega arith)
]

-- The callback takes the whole frames of the buffer, and leaves what stands behind them.
pub read_task_part :
    (now self : ℕ) (fs : List Frame) (part : List Cell) (fuel : ℕ) (r : Reading)
    → IsValid r.conn.recv_buffer
    → AllFramed fs
    → IsPart part
    → contents r.conn.recv_buffer ≡ stream fs ++ part
    → length fs < fuel
    → (b : Buffer) × (ms : List Msg) × (read_task now self false fuel r
        ≡ ok (read_on b ms r, waiting))
      × Delivered r.conn.cur_sequence self fs ms
      × IsValid b
      × (contents b ≡ part)
      × (b.end ≤ r.conn.recv_buffer.end)
      × (b.capacity ≤ r.conn.recv_buffer.capacity)
unfolding take_report
read_task_part now self fs part zero r v w cut e h = absurd (omega arith)
read_task_part now self [] part (suc k) r v w cut e h = (
  r.conn.recv_buffer,
  [],
  read_part now self k r part v e cut
      ∙ ap (λ ts. ok (record r { tasks = ts }, waiting)) (sym (append-nil r.tasks)),
  tt,
  v,
  e,
  omega arith,
  omega arith,
)
read_task_part now self (f ∷ fs) part (suc k) r v (w, ws) cut e h =
    let more : contents r.conn.recv_buffer ≡ header f.head ++ (f.body ++ (stream fs ++ part)) =
      e ∙ ap (◌++◌ (header f.head)) (append_assoc f.body (stream fs) part) in
    let (body, dec, u, c, fits, rest) =
      first_frame r.conn.recv_buffer f (stream fs ++ part) v w more in
    let rpt : Rpt = record { rpt_head = f.head; rpt_buffer = body } in
    let m : Msg = message self (consumed_recv_buffer_size r.conn (suc f.head.rpt_len)) rpt in
    let (b, ms, done, delivered, valid, left, no_later, same) =
      read_task_part now self fs part k (take_report false self (suc f.head.rpt_len) rpt r)
        (consumed-IsValid (suc f.head.rpt_len) fits v) ws cut rest (omega arith) in
    let (ends, cap) = consumed_bounds r.conn.recv_buffer (suc f.head.rpt_len) in
    (
      b,
      m ∷ ms,
      read_step now self k f.head.rpt_len false r rpt dec
          ∙ done
          ∙ ap
              (λ ts.
                ok (record r { conn = record r.conn { recv_buffer = b }; tasks = ts }, waiting))
              (append_assoc r.tasks (m ∷ []) ms),
      (refl, refl, refl, u, c, delivered),
      valid,
      left,
      omega (arith, no_later, ends),
      omega (arith, same, cap),
    )

-- With a receive buffer that is valid and holds whole frames, a running thread pool, and more
-- rounds than frames, the read callback reads the buffer to its end: each report goes to the thread
-- pool, in order, for the peer that the connection has, the buffer is empty afterwards, and nothing
-- is recycled.
pub read_task_stream :
    (now self : ℕ) (fs : List Frame) (fuel : ℕ) (r : Reading)
    → IsValid r.conn.recv_buffer
    → AllFramed fs
    → contents r.conn.recv_buffer ≡ stream fs
    → length fs < fuel
    → (r' : Reading) × (ms : List Msg) × (read_task now self false fuel r ≡ ok (r', waiting))
      × (r'.tasks ≡ r.tasks ++ ms)
      × Delivered r.conn.cur_sequence self fs ms
      × (contents r'.conn.recv_buffer ≡ [])
      × (r'.recy ≡ r.recy)
read_task_stream now self fs fuel r v w e h =
    let (b, ms, done, delivered, _, left, _, _) =
      read_task_part now self fs [] fuel r v w (inl refl) (e ∙ sym (append-nil (stream fs))) h in
    (read_on b ms r, ms, done, refl, delivered, left, refl)
