-- ===== src/Codec.antt =====
-- include/tiny_codec.h and codec/tiny_codec.cxx: the frame 0x3f, length, type, crc, body.
-- Numbers of two and four bytes are copied in the order of a little-endian machine. `decode` reads
-- from the memory behind its pointer, which may be longer than `len` or shorter.
pub mod Encode
pub mod Decode
pub mod RoundTrip
pub mod Sound
mod Tests
use tiny_network_repository.Prelude.{
  ℕ, ◌+◌, ◌*◌, ◌/◌, ◌%◌, List, [], ◌∷◌, Option, none, some, map, get_elem?, drop, if◌then◌else◌,
  ltb, ◌==◌,
}
use tiny_network_repository.Prelude.Int.{ℤ, pos, negsuc}
use tiny_network_repository.Prelude.Outcome.{
  Outcome, ok, err, out_of_bounds, uninitialised, ◌>>=◌, add64, sub64,
}
use tiny_network_repository.Buffer.{Buffer, Cell, fresh, size, from_data, append}

pub record RptHead : Type 0 where
  pub rpt_len : ℕ
  pub type : ℕ

pub record Rpt : Type 0 where
  pub rpt_head : RptHead
  pub rpt_buffer : Buffer

-- Rpt(), whose head is zeroed.
abbrev pub blank : Rpt
blank = record { rpt_head = record { rpt_len = 0; type = 0 }; rpt_buffer = fresh }

pub record MsgHead : Type 0 where
  pub cur_seq : ℕ
  pub tcp_conn : ℕ

pub record Msg : Type 0 where
  pub msg_head : MsgHead
  pub rpt : Rpt

-- The nine bytes of `temp`: the mark, the low and the high byte of the length and of the type, and
-- a crc of zero.
abbrev pub header : RptHead → List Cell
header h = map some (
    0x3f
    ∷ (h.rpt_len % 256)
    ∷ (h.rpt_len / 256)
    ∷ (h.type % 256)
    ∷ (h.type / 256)
    ∷ 0
    ∷ 0
    ∷ 0
    ∷ 0
    ∷ [])

unfoldable pub encode : Rpt → Outcome Buffer
encode rpt = do
  b ← append fresh (header rpt.rpt_head) 9
  append b (from_data rpt.rpt_buffer) (size rpt.rpt_buffer)

abbrev as_byte : Option Cell → Outcome ℕ
as_byte none = err out_of_bounds
as_byte (some none) = err uninitialised
as_byte (some (some x)) = ok (x % 256)

unfoldable pub read_byte : List Cell → ℕ → Outcome ℕ
read_byte mem i = as_byte (get_elem? mem i)

unfoldable pub read_u16 : List Cell → ℕ → Outcome ℕ
unfolding read_byte
read_u16 mem i = do lo ← read_byte mem i; hi ← read_byte mem (i + 1); ok (lo + 256 * hi)

unfoldable pub read_u32 : List Cell → ℕ → Outcome ℕ
unfolding read_u16
read_u32 mem i = do lo ← read_u16 mem i; hi ← read_u16 mem (i + 2); ok (lo + 65536 * hi)

-- The end of `decode`: the body is copied from behind the header.
unfoldable pub decode_body : List Cell → ℕ → ℕ → Outcome (ℤ × Rpt)
decode_body mem rpt_len type = do
  body ← append fresh (drop 9 mem) (sub64 rpt_len 8)
  ok (
    pos (add64 1 rpt_len),
    record { rpt_head = record { rpt_len = rpt_len; type = type }; rpt_buffer = body },
  )

-- The middle of `decode`: the three numbers of the header, and what they are tested for.
unfoldable pub decode_head : List Cell → ℕ → Outcome (ℤ × Rpt)
decode_head mem len = do
  rpt_len ← read_u16 mem 1
  type ← read_u16 mem 3
  crc ← read_u32 mem 5
  if crc == 0
      then (if ltb len (add64 1 rpt_len) then ok (pos 0, blank) else decode_body mem rpt_len type)
      else ok (negsuc 0, blank)

-- decode(buf, len): the bytes consumed, 0 where they are too few, or -1 where they are wrong.
unfoldable pub decode : List Cell → ℕ → Outcome (ℤ × Rpt)
decode mem len = if len == 0 then ok (pos 0, blank) else (do
  mark ← read_byte mem 0
  if mark == 0x3f then decode_head mem len else ok (negsuc 0, blank))
