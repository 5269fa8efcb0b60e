-- ===== src/Codec/Sound.antt =====
-- What a successful `decode` says of its input.
use tiny_network_repository.Prelude.{
  ℕ, suc, ◌+◌, ◌-◌, ◌≤◌, ◌≡◌, refl, arith, List, take, drop, length, Bool-cases, inl, inr, ltb,
  ◌==◌, ap, leb, leb→le, ◌<◌, sym, ◌∙◌, if◌then◌else◌,
}
use tiny_network_repository.Prelude.Int.{ℤ, pos, negsuc}
use tiny_network_repository.Prelude.Outcome.{
  ok, err, Outcome, ◌>>=◌, >>=-eq-ok, add64, sub64, out_of_bounds,
}
use mathlib.Core.Path.{subst}
use native.Mathlib.Decide.{dec_lt}
use tiny_network_repository.Buffer.{Buffer, Cell, fresh, contents, append, make_room_for, write_end}
use tiny_network_repository.Buffer.Valid.{IsValid}
use tiny_network_repository.Codec.{
  Rpt, decode, decode_head, decode_body, read_byte, read_u16, read_u32, blank,
}
use tiny_network_repository.Codec.Decode.{decode_body_lem, decode_body_underflow, read_u16-lt}

-- `n` bytes at `mem` are a frame with the length, the type and the body of `r`.
pub record IsFrame (mem : List Cell) (n : ℕ) (r : Rpt) : Type 0 where
  pub mark : read_byte mem 0 ≡ ok 0x3f
  pub length_field : read_u16 mem 1 ≡ ok r.rpt_head.rpt_len
  pub type_field : read_u16 mem 3 ≡ ok r.rpt_head.type
  pub crc_field : read_u32 mem 5 ≡ ok 0
  pub whole : n ≡ r.rpt_head.rpt_len + 1
  pub at_least : 8 ≤ r.rpt_head.rpt_len
  pub body : contents r.rpt_buffer ≡ take (n - 9) (drop 9 mem)
  pub valid : IsValid r.rpt_buffer

append_reads :
    (b : Buffer) (src : List Cell) (n : ℕ) {b' : Buffer} → append b src n ≡ ok b' → n ≤ length src
unfolding append
append_reads b src n h =
    let (g, _, e) = >>=-eq-ok (make_room_for b n) _ h in
    let (w, e', _) =
      >>=-eq-ok (if leb n (length src) then write_end g (take n src) else err out_of_bounds) _ e in
    elim (Bool-cases (leb n (length src))) [
      | inl yes_test ↦ leb→le n (length src) yes_test
      | inr no_test ↦
          cc (ap (λ t. if t then write_end g (take n src) else err out_of_bounds) no_test)
    ]

abbrev IsBody : List Cell → ℕ → ℕ → ℤ × Rpt → Type 0
IsBody mem l t p =
    (p.0 ≡ pos (l + 1))
    × (p.1.rpt_head.rpt_len ≡ l)
    × (p.1.rpt_head.type ≡ t)
    × (8 ≤ l)
    × (contents p.1.rpt_buffer ≡ take (l - 8) (drop 9 mem))
    × IsValid p.1.rpt_buffer

ok-injective {ℓ} : {A : Type ℓ} {a b : A} → ◌≡◌ {A = Outcome A} (ok a) (ok b) → a ≡ b
ok-injective h = cc

-- A body that is copied has a length field of 8 at least, and is in the memory.
decode_body_inv :
    (mem : List Cell) (l t : ℕ) {p : ℤ × Rpt}
    → l < 65536
    → decode_body mem l t ≡ ok p
    → IsBody mem l t p
unfolding decode_body
decode_body_inv mem l t {p} lt h = elim (dec_lt l 8) [
  | yes low ↦ cc (decode_body_underflow mem l t low)
  | no high ↦
      let (body, e, v, c) = decode_body_lem mem l t (omega arith) lt (read_all (omega arith)) in
      subst (IsBody mem l t) (ok-injective (sym e ∙ h))
        (ap pos (omega arith), refl, refl, omega arith, c, v)
]
  where
    read_all : 8 ≤ l → l - 8 ≤ length (drop 9 mem)
    read_all high =
        let (body, e, _) = >>=-eq-ok (append fresh (drop 9 mem) (sub64 l 8)) _ h in
        omega (arith, append_reads fresh (drop 9 mem) (sub64 l 8) e)

tests_passed :
    (mem : List Cell) (len l t crc n : ℕ) {r : Rpt}
    → (if crc == 0
        then (if ltb len (add64 1 l) then ok (pos 0, blank) else decode_body mem l t)
        else ok (negsuc 0, blank))
      ≡ ok (pos (suc n), r)
    → (crc ≡ 0) × (add64 1 l ≤ len) × (decode_body mem l t ≡ ok (pos (suc n), r))
tests_passed mem len l t crc n h = ground arith

decode_head_inv :
    (mem : List Cell) (len n : ℕ) {r : Rpt}
    → read_byte mem 0 ≡ ok 0x3f
    → decode_head mem len ≡ ok (pos (suc n), r)
    → IsFrame mem (suc n) r × (suc n ≤ len)
unfolding decode_head
decode_head_inv mem len n {r} mark h =
    let (l, read_l, h₁) = >>=-eq-ok (read_u16 mem 1) _ h in
    let (t, read_t, h₂) = >>=-eq-ok (read_u16 mem 3) _ h₁ in
    let (crc, read_c, h₃) = >>=-eq-ok (read_u32 mem 5) _ h₂ in
    let (no_crc, fits, done) = tests_passed mem len l t crc n h₃ in
    let lt = read_u16-lt mem 1 read_l in
    let (count, same_l, same_t, at_least, body, valid) = decode_body_inv mem l t lt done in
    let counted : suc n ≡ l + 1 = ground arith in
    (
      record {
        mark = mark;
        length_field = read_l ∙ ap ok (sym same_l);
        type_field = read_t ∙ ap ok (sym same_t);
        crc_field = read_c ∙ ap ok no_crc;
        whole = omega (arith, same_l);
        at_least = omega (arith, same_l);
        body =
            let few : suc n - 9 ≡ l - 8 = omega arith in
            body ∙ ap (λ k. take k (drop 9 mem)) (sym few);
        valid = valid;
      },
      omega arith,
    )

-- If `decode` says that it consumed n + 1 bytes, these are a frame with the returned length, type
-- and body, and are among the `len` bytes that it was given.
pub decode-IsFrame :
    (mem : List Cell) (len n : ℕ) {r : Rpt}
    → decode mem len ≡ ok (pos (suc n), r)
    → IsFrame mem (suc n) r × (suc n ≤ len)
unfolding decode
decode-IsFrame mem len n {r} h =
    let (c, read_c, h₁) = >>=-eq-ok (read_byte mem 0) _ (proceeds h) in
    let (is_mark, h₂) = marked c h₁ in decode_head_inv mem len n (read_c ∙ ap ok is_mark) h₂
  where
    after_mark : ℕ → Outcome (ℤ × Rpt)
    after_mark mark = if mark == 0x3f then decode_head mem len else ok (negsuc 0, blank)

    proceeds :
        (if len == 0 then ok (pos 0, blank) else (read_byte mem 0 >>= after_mark))
          ≡ ok (pos (suc n), r)
        → (read_byte mem 0 >>= after_mark) ≡ ok (pos (suc n), r)
    proceeds e = ground arith

    marked :
        (c : ℕ)
        → after_mark c ≡ ok (pos (suc n), r)
        → (c ≡ 0x3f) × (decode_head mem len ≡ ok (pos (suc n), r))
    marked c e = ground arith
