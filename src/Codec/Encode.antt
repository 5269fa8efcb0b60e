-- ===== src/Codec/Encode.antt =====
-- The bytes that `encode` lays out.
use tiny_network_repository.Prelude.{
  ◌+◌, ◌≤◌, ◌<◌, ◌≡◌, ◌⊎◌, refl, arith, none, ◌++◌, length, replicate, length-drop,
}
use tiny_network_repository.Prelude.Outcome.{ok, err, out_of_bounds}
use tiny_network_repository.Buffer.{Buffer, fresh, size, contents, append, from_data, max_alloc}
use tiny_network_repository.Buffer.Valid.{IsValid, size_lem}
use tiny_network_repository.Buffer.Append.{append_lem, append_overflow, HasRoom}
use tiny_network_repository.Codec.{Rpt, RptHead, header, encode}

-- The buffer that holds the header: nine bytes in a block of 512.
abbrev headed : RptHead → Buffer
headed h = record {
  buf = header h ++ replicate 503 none;
  begin = 0;
  end = 9;
  capacity = 512;
  exp = 512;
}

append-header : (h : RptHead) → append fresh (header h) 9 ≡ ok (headed h)
unfolding append fresh
append-header h = refl

headed-IsValid : (h : RptHead) → IsValid (headed h)
headed-IsValid h = omega arith

contents-headed : (h : RptHead) → contents (headed h) ≡ header h
unfolding contents
contents-headed h = refl

size-headed : (h : RptHead) → size (headed h) ≡ 9
unfolding size
size-headed h = refl

module _ (rpt : Rpt) (v : IsValid rpt.rpt_buffer) (h : size rpt.rpt_buffer + 9 < max_alloc) where
  open rpt use {rpt_head, rpt_buffer}

  stored : size rpt_buffer ≤ length (from_data rpt_buffer)
  stored = omega (arith, length-drop rpt_buffer.begin rpt_buffer.buf, size_lem v, v)

  -- A report whose body is valid, can be allocated with 9 bytes more, and is not of 504 to 512
  -- bytes, is encoded as its header and its body.
  pub encode_lem :
      (size rpt_buffer ≤ 503) ⊎ (512 < size rpt_buffer)
      → (b : Buffer) × (encode rpt ≡ ok b)
        × IsValid b
        × (contents b ≡ header rpt_head ++ contents rpt_buffer)
  unfolding encode contents
  encode_lem few_or_many = rw (append-header rpt_head) (
      append_lem (headed-IsValid rpt_head) (from_data rpt_buffer) (size rpt_buffer) stored
        (omega arith) (omega (arith, size-headed rpt_head)) room)
    where
      room : HasRoom (headed rpt_head) (size rpt_buffer)
      room = omega (arith, size-headed rpt_head)

  -- A valid body of 504 to 512 bytes, which can be allocated with 9 bytes more, is written past the
  -- block that holds the header.
  pub encode_overflow :
      504 ≤ size rpt_buffer → size rpt_buffer ≤ 512 → encode rpt ≡ err out_of_bounds
  unfolding encode
  encode_overflow lo hi = rw (append-header rpt_head) (
      append_overflow (headed-IsValid rpt_head) (from_data rpt_buffer) (size rpt_buffer) stored
        (omega arith) (omega (arith, size-headed rpt_head)) cramped)
    where
      cramped : ¬ HasRoom (headed rpt_head) (size rpt_buffer)
      cramped room = omega arith
