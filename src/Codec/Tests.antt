-- ===== src/Codec/Tests.antt =====
-- Runs of the codec, and the theorems at concrete reports.
use tiny_network_repository.Prelude.{
  ◌≤◌, ◌≡◌, refl, arith, List, [], ◌∷◌, ◌++◌, none, some, inl, inr, take, length, replicate,
}
use tiny_network_repository.Prelude.Int.{pos, negsuc}
use tiny_network_repository.Prelude.Outcome.{ok, err, uninitialised, bad_alloc}
use tiny_network_repository.Buffer.{Buffer, Cell, size, contents, append, fresh}
use tiny_network_repository.Buffer.Valid.{IsValid}
use tiny_network_repository.Codec.{
  Rpt, RptHead, header, blank, encode, decode, read_byte, decode_head, read_u16, read_u32,
  decode_body,
}
use tiny_network_repository.Codec.Decode.{decoded}
use tiny_network_repository.Codec.RoundTrip.{decode-encode, decode_cut, decode_tiny}
use tiny_network_repository.Codec.Sound.{IsFrame, decode-IsFrame}
use tiny_network_repository.Samples.{holding, holding-IsValid}

abbrev ten : RptHead
ten = record { rpt_len = 10; type = 258 }

abbrev report : Rpt
report = record { rpt_head = ten; rpt_buffer = holding (65 ∷ 66 ∷ []) }

report-IsValid : IsValid report.rpt_buffer
report-IsValid = holding-IsValid (65 ∷ 66 ∷ []) (omega arith)

abbrev frame : List Cell
frame = header ten ++ (some 65 ∷ some 66 ∷ [])

-- A body of 510 bytes.
abbrev long : Rpt
long = record {
  rpt_head = record { rpt_len = 518; type = 1 };
  rpt_buffer = record {
    buf = replicate 512 (some 1);
    begin = 0;
    end = 510;
    capacity = 512;
    exp = 512;
  };
}

long-IsValid : IsValid long.rpt_buffer
long-IsValid = record {
  begin_le = omega arith;
  end_le = omega arith;
  block = refl;
  small = omega arith;
  exp_eq = refl;
  roomy = inr (omega arith);
}

abbrev tiny : RptHead
tiny = record { rpt_len = 3; type = 1 }

not_marked : decode (some 0x40 ∷ []) 1 ≡ ok (negsuc 0, blank)
unfolding decode read_byte
not_marked = refl

decode-encode_example :
    (b c : Buffer) × (encode report ≡ ok b)
    × (decode (contents b ++ []) (length (contents b ++ [])) ≡ ok (decoded 10 258 c))
    × (size b ≡ 11)
    × IsValid c
    × (contents c ≡ contents (holding (65 ∷ 66 ∷ [])))
decode-encode_example =
    decode-encode report [] report-IsValid (unfold size in refl) (omega arith) (omega arith)
      (inl (unfold size in omega arith))

frame_decoded : decode frame 11 ≡ ok (pos 11, report)
unfolding decode read_byte decode_head read_u16 read_u32 decode_body append fresh
frame_decoded = refl

decode-IsFrame_example : IsFrame frame 11 report × (11 ≤ 11)
decode-IsFrame_example = decode-IsFrame frame 11 10 frame_decoded

decode_cut_example : decode (take 4 (header ten) ++ (none ∷ [])) 4 ≡ err uninitialised
decode_cut_example = decode_cut ten [] 3 (omega arith)

decode_tiny_example : decode (header tiny ++ []) 9 ≡ err bad_alloc
decode_tiny_example = decode_tiny tiny [] 8 (omega arith) (omega arith) (omega arith)
