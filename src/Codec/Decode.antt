-- ===== src/Codec/Decode.antt =====
-- What `decode` does on each kind of input: a body copied, a length that underflows, a header that
-- is complete, and input that is refused.
use tiny_network_repository.Prelude.{
  ℕ, suc, ◌+◌, ◌-◌, ◌^◌, ◌≤◌, ◌<◌, ◌≡◌, refl, ◌∙◌, ap, arith, List, ◌++◌, length, take, drop,
  if◌then◌else◌, ltb, ◌==◌, false,
}
use tiny_network_repository.Prelude.Int.{ℤ, pos}
use tiny_network_repository.Prelude.Outcome.{ok, err, bad_alloc, add64, sub64}
use tiny_network_repository.Buffer.{Buffer, Cell, fresh, size, contents, append, max_alloc}
use tiny_network_repository.Buffer.Valid.{IsValid, fresh-IsValid}
use tiny_network_repository.Buffer.Append.{append_lem}
use tiny_network_repository.Codec.{
  Rpt, RptHead, header, blank, decode, decode_head, decode_body, read_byte, read_u16, read_u32,
}

-- A request for more than PTRDIFF_MAX bytes throws, whatever is at the source.
append_huge :
    (src : List Cell) (n : ℕ) → max_alloc ≤ n → n < 2 ^ 64 → append fresh src n ≡ err bad_alloc
unfolding append fresh
append_huge src n lo hi = ground arith

-- A length below 8 makes the length of the body wrap.
pub decode_body_underflow :
    (mem : List Cell) (l t : ℕ) → l < 8 → decode_body mem l t ≡ err bad_alloc
unfolding decode_body
decode_body_underflow mem l t h =
    rw (append_huge (drop 9 mem) (sub64 l 8) (omega arith) (omega arith))

abbrev pub decoded : ℕ → ℕ → Buffer → ℤ × Rpt
decoded l t body =
    (pos (add64 1 l), record { rpt_head = record { rpt_len = l; type = t }; rpt_buffer = body })

pub decode_body_lem :
    (mem : List Cell) (l t : ℕ)
    → 8 ≤ l
    → l < 65536
    → l - 8 ≤ length (drop 9 mem)
    → (body : Buffer) × (decode_body mem l t ≡ ok (decoded l t body))
      × IsValid body
      × (contents body ≡ take (l - 8) (drop 9 mem))
unfolding decode_body
decode_body_lem mem l t lo hi enough =
    let len : sub64 l 8 ≡ l - 8 = omega arith in
    let (body, e, v, c) =
      append_lem fresh-IsValid (drop 9 mem) (l - 8) enough (unfold fresh in omega arith)
        (unfold fresh size in omega arith) (unfold fresh size in omega arith) in
    (body, rw (len, e), v, c ∙ contents_fresh)
  where
    contents_fresh : contents fresh ++ take (l - 8) (drop 9 mem) ≡ take (l - 8) (drop 9 mem)
    contents_fresh = unfold contents fresh size in refl

pub read_u16-lt : (mem : List Cell) (i : ℕ) {x : ℕ} → read_u16 mem i ≡ ok x → x < 65536
unfolding read_u16
read_u16-lt mem i h = ground arith

module _ (h : RptHead) (rest : List Cell) (lo : h.rpt_len < 65536) (hi : h.type < 65536) where
  abbrev mem : List Cell
  mem = header h ++ rest

  read_len : read_u16 mem 1 ≡ ok h.rpt_len
  unfolding read_u16
  read_len = ap ok (omega arith)

  read_type : read_u16 mem 3 ≡ ok h.type
  unfolding read_u16
  read_type = ap ok (omega arith)

  read_crc : read_u32 mem 5 ≡ ok 0
  unfolding read_u32
  read_crc = refl

  -- A complete header of a report is read back.
  pub decode-header :
      (k : ℕ)
      → decode mem (suc k) ≡ (
          if ltb (suc k) (1 + h.rpt_len)
          then ok (pos 0, blank)
          else decode_body mem h.rpt_len h.type)
  unfolding decode decode_head
  decode-header k =
      let mark : read_byte mem 0 ≡ ok 0x3f = unfold read_byte in refl in
      let small : add64 1 h.rpt_len ≡ 1 + h.rpt_len = omega arith in
      let some_left : (suc k == 0) ≡ false = ground arith in
      rw (some_left, mark, read_len, read_type, read_crc, small)
