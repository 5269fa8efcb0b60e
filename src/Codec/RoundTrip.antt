-- ===== src/Codec/RoundTrip.antt =====
-- `decode` after `encode`, whole, in part, and with more behind it.
use tiny_network_repository.Prelude.{
  ℕ, zero, suc, ◌+◌, ◌-◌, ◌≤◌, ◌<◌, ◌≡◌, ◌⊎◌, refl, ◌∙◌, ap, arith, none, List, ◌∷◌, ◌++◌, length,
  take, ltb, append_assoc, length-append, false, true, take-append_le, take_all,
}
use tiny_network_repository.Prelude.Int.{pos}
use tiny_network_repository.Prelude.Outcome.{ok, err, uninitialised, bad_alloc}
use tiny_network_repository.Buffer.{Buffer, Cell, size, contents}
use tiny_network_repository.Buffer.Valid.{IsValid, length-contents}
use tiny_network_repository.Codec.{
  Rpt, RptHead, header, blank, encode, decode, read_u32, decode_head,
}
use tiny_network_repository.Codec.Encode.{encode_lem}
use tiny_network_repository.Codec.Decode.{
  decoded, decode_body_lem, decode_body_underflow, decode-header,
}

-- A frame and what follows it, where the length field tells the length of the body.
pub decode_frame :
    (h : RptHead) (body rest : List Cell) (len : ℕ)
    → h.rpt_len ≡ length body + 8
    → h.rpt_len < 65536
    → h.type < 65536
    → length body + 9 ≤ len
    → (b : Buffer) × (decode (header h ++ (body ++ rest)) len ≡ ok (decoded h.rpt_len h.type b))
      × IsValid b
      × (contents b ≡ body)
decode_frame h body rest zero e lo hi enough = absurd (omega arith)
decode_frame h body rest (suc k) e lo hi enough =
    let (b, done, v, c) =
      decode_body_lem (header h ++ (body ++ rest)) h.rpt_len h.type (omega arith) lo
        (omega (arith, length-append body rest)) in
    let whole : ltb (suc k) (1 + h.rpt_len) ≡ false = ground arith in
    (b, rw (decode-header h (body ++ rest) lo hi k, whole) done, v, c ∙ exactly)
  where
    exactly : take (h.rpt_len - 8) (body ++ rest) ≡ body
    exactly =
        let n : h.rpt_len - 8 ≡ length body = omega arith in
        rw n (
          take-append_le (length body) body rest (omega arith)
          ∙ take_all (length body) body (omega arith))

-- What `encode` writes for a report with a valid body, whose length field is 8 more than its body
-- has bytes and whose two numbers fit in 16 bits, is read back as that report, also with other
-- bytes behind it, and just its bytes are counted. The body has less than 504 bytes, or more than
-- 512.
pub decode-encode :
    (rpt : Rpt) (rest : List Cell)
    → IsValid rpt.rpt_buffer
    → rpt.rpt_head.rpt_len ≡ size rpt.rpt_buffer + 8
    → rpt.rpt_head.rpt_len < 65536
    → rpt.rpt_head.type < 65536
    → (size rpt.rpt_buffer ≤ 503) ⊎ (512 < size rpt.rpt_buffer)
    → (b c : Buffer) × (encode rpt ≡ ok b)
      × (decode (contents b ++ rest) (length (contents b ++ rest))
          ≡ ok (decoded rpt.rpt_head.rpt_len rpt.rpt_head.type c))
      × (size b ≡ rpt.rpt_head.rpt_len + 1)
      × IsValid c
      × (contents c ≡ contents rpt.rpt_buffer)
decode-encode rpt rest v e lo hi room =
    let (b, enc, w, laid) = encode_lem rpt v (omega arith) room in
    let len = length-contents v in
    let (c, dec, u, same) =
      decode_frame rpt.rpt_head (contents rpt.rpt_buffer) rest
        (length (header rpt.rpt_head ++ (contents rpt.rpt_buffer ++ rest))) (omega (arith, len)) lo
        hi (omega (arith, length-append (contents rpt.rpt_buffer) rest)) in
    (
      b,
      c,
      enc,
      rw (laid, append_assoc (header rpt.rpt_head) (contents rpt.rpt_buffer) rest) dec,
      omega (arith, length-contents w, ap length laid, len),
      u,
      same,
    )

-- While the header of a frame with two numbers of 16 bits is there and the frame is not there
-- whole, for a number of bytes from 1 up to its length field, `decode` waits for more.
pub decode_part :
    (h : RptHead) (rest : List Cell) (k : ℕ)
    → h.rpt_len < 65536
    → h.type < 65536
    → suc k ≤ h.rpt_len
    → decode (header h ++ rest) (suc k) ≡ ok (pos 0, blank)
decode_part h rest k lo hi part =
    let test : ltb (suc k) (1 + h.rpt_len) ≡ true = ground arith in
    rw (decode-header h rest lo hi k, test)

-- With one to eight bytes of a frame in memory that nobody wrote behind them, `decode` does not
-- wait: it reads header bytes that nobody wrote.
pub decode_cut :
    (h : RptHead) (rest : List Cell) (k : ℕ)
    → k < 8
    → decode (take (suc k) (header h) ++ (none ∷ rest)) (suc k) ≡ err uninitialised
unfolding decode decode_head read_u32
decode_cut h rest zero lt = refl
decode_cut h rest (suc zero) lt = refl
decode_cut h rest (suc (suc zero)) lt = refl
decode_cut h rest (suc (suc (suc zero))) lt = refl
decode_cut h rest (suc (suc (suc (suc zero)))) lt = refl
decode_cut h rest (suc (suc (suc (suc (suc zero))))) lt = refl
decode_cut h rest (suc (suc (suc (suc (suc (suc zero)))))) lt = refl
decode_cut h rest (suc (suc (suc (suc (suc (suc (suc zero))))))) lt = refl
decode_cut h rest (suc (suc (suc (suc (suc (suc (suc (suc k)))))))) lt = absurd (omega arith)

-- A frame that is there whole, whose length field is below 8 and whose type fits in 16 bits, makes
-- `decode` ask for almost 2^64 bytes: `new` throws.
pub decode_tiny :
    (h : RptHead) (rest : List Cell) (k : ℕ)
    → h.rpt_len < 8
    → h.type < 65536
    → h.rpt_len ≤ k
    → decode (header h ++ rest) (suc k) ≡ err bad_alloc
decode_tiny h rest k tiny hi enough =
    let test : ltb (suc k) (1 + h.rpt_len) ≡ false = ground arith in
    rw (decode-header h rest (omega arith) hi k, test)
      (decode_body_underflow (header h ++ rest) h.rpt_len h.type tiny)
