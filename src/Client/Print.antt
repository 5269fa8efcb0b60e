-- ===== src/Client/Print.antt =====
-- What the client prints of a report of the server.
use tiny_network_repository.Prelude.{
  ℕ, zero, suc, ◌+◌, ◌-◌, ◌/◌, ◌%◌, ◌*◌, ◌≤◌, ◌<◌, ◌≡◌, refl, ◌∙◌, ap, arith, List, [], ◌∷◌, ◌++◌,
  some, map, length, take, replicate, leb, true, inl, length-map, append_assoc, take-append_le,
  take-append_ge, take_all,
}
use tiny_network_repository.Prelude.Outcome.{ok, sub64}
use tiny_network_repository.Buffer.{Buffer, Cell, size, contents}
use tiny_network_repository.Buffer.Valid.{IsValid, length-contents}
use tiny_network_repository.Codec.{Rpt, RptHead, header, encode}
use tiny_network_repository.Codec.Encode.{encode_lem}
use tiny_network_repository.Client.{received, until_zero, print_report}

-- The text has no zero.
abbrev pub AllPositive : List ℕ → Type 0
AllPositive [] = Unit {0}
AllPositive (x ∷ xs) = (1 ≤ x) × AllPositive xs

until_zero-text :
    (xs : List ℕ) (rest : List Cell)
    → AllPositive xs
    → until_zero (map some xs ++ (some 0 ∷ rest)) ≡ ok xs
unfolding until_zero
until_zero-text [] rest h = refl
until_zero-text (zero ∷ xs) rest (h, hs) = absurd (omega arith)
until_zero-text (suc x ∷ xs) rest (h, hs) = rw (until_zero-text xs rest hs) refl

copied :
    (xs : List ℕ) (tail : List Cell)
    → length xs < 100
    → AllPositive xs
    → until_zero (take (length xs) (map some xs ++ tail) ++ replicate (100 - length xs) (some 0))
      ≡ ok xs
copied xs tail few pos =
    let n : 100 - length xs ≡ suc (99 - length xs) = omega arith in
    let front : take (length xs) (map some xs ++ tail) ≡ map some xs =
      take-append_le (length xs) (map some xs) tail (omega (arith, length-map {B = Cell} some xs))
      ∙ take_all (length xs) (map some xs) (omega (arith, length-map {B = Cell} some xs)) in
    rw (n, front) (until_zero-text xs (replicate (99 - length xs) (some 0)) pos)

print_report-header :
    (h : RptHead) (xs : List ℕ) (tail : List Cell)
    → h.rpt_len ≡ length xs + 8
    → length xs < 100
    → AllPositive xs
    → print_report (header h ++ (map some xs ++ tail)) ≡ ok xs
unfolding print_report
print_report-header h xs tail e few pos =
    let low : h.rpt_len % 256 % 256 + 256 * (h.rpt_len / 256 % 256) ≡ h.rpt_len = omega arith in
    let n : sub64 h.rpt_len 8 ≡ length xs = omega arith in
    let fits : leb (length xs) 100 ≡ true = ground arith in
    rw (low, n, fits) (copied xs tail few pos)

received-header :
    (h : RptHead) (xs : List ℕ) (rest : List Cell)
    → length xs < 100
    → (tail : List Cell) × (received ((header h ++ map some xs) ++ rest)
        ≡ header h ++ (map some xs ++ tail))
received-header h xs rest few =
    let body : List Cell = map some xs in
    let zeros : List Cell = replicate 1024 (some 0) in
    (
      take (1015 - length body) (rest ++ zeros),
      ap (λ l. header h ++ take 1015 l) (append_assoc body rest zeros)
          ∙ ap (λ l. header h ++ l)
              (take-append_ge 1015 body (rest ++ zeros)
                (omega (arith, length-map {B = Cell} some xs))),
    )

-- A report with a valid body of less than 100 bytes without a zero, and a length field 8 more than
-- these, is encoded to bytes of which the client, when they come with others behind them, prints
-- just the body.
pub print_report-encode :
    (rpt : Rpt) (xs : List ℕ) (rest : List Cell)
    → IsValid rpt.rpt_buffer
    → contents rpt.rpt_buffer ≡ map some xs
    → rpt.rpt_head.rpt_len ≡ length xs + 8
    → length xs < 100
    → AllPositive xs
    → (b : Buffer) × (encode rpt ≡ ok b) × (print_report (received (contents b ++ rest)) ≡ ok xs)
print_report-encode rpt xs rest v c e few pos =
    let width : size rpt.rpt_buffer ≡ length xs =
      omega (arith, length-contents v, ap length c, length-map {B = Cell} some xs) in
    let (b, encoded, _, laid_out) =
      encode_lem rpt v (omega (arith, width)) (inl (omega (arith, width))) in
    let (tail, all) = received-header rpt.rpt_head xs rest few in
    (
      b,
      encoded,
      ap (λ l. print_report (received (l ++ rest)))
            (laid_out ∙ ap (λ l. header rpt.rpt_head ++ l) c)
          ∙ ap print_report all
          ∙ print_report-header rpt.rpt_head xs tail e few pos,
    )
