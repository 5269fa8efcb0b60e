-- ===== src/Client.antt =====
-- client/tiny_client.cxx: what a turn of its loop writes for a line of the standard input, and what
-- it prints of the bytes that a read returns. `sendBuf` and `recvBuf` are zeroed blocks of 1024
-- bytes, at the start of each turn; `sstr` has 100. The results of socket and connect are arguments.
pub mod Print
pub mod Answered
pub mod Conversation
mod Tests
use tiny_network_repository.Prelude.{
  text_codes, ℕ, zero, suc, ◌+◌, ◌-◌, List, [], ◌∷◌, ◌++◌, Option, none, some, map, length, take,
  Bool, true, false, drop, replicate, if◌then◌else◌, leb, ◌==◌, ◌/◌, ◌%◌,
}
use tiny_network_repository.Prelude.Int.{ℤ, negsuc}
use tiny_network_repository.Prelude.Outcome.{
  Outcome, ok, err, out_of_bounds, uninitialised, ◌>>=◌, sub64,
}
use tiny_network_repository.Buffer.{Cell}
use tiny_network_repository.Codec.{read_byte, read_u16}

-- `memcpy` of bytes to a place of a block that has room for them.
abbrev pub copy_to : ℕ → List ℕ → List ℕ → List ℕ
copy_to at bytes block = take at block ++ (bytes ++ drop (at + length bytes) block)

abbrev pub number_bytes : ℕ → List ℕ
number_bytes n = n % 256 ∷ n / 256 ∷ []

abbrev pub greeting : List ℕ
greeting = text_codes "nihao"

-- The bytes that a turn writes to the socket.
abbrev pub request : List ℕ
request =
    let marked = copy_to 0 (0x3f ∷ []) (replicate 1024 0) in
    let sized = copy_to 1 (number_bytes (8 + length greeting)) marked in
    let typed = copy_to 3 (number_bytes 0) sized in
    let checked = copy_to 5 (number_bytes 0) typed in
    take (9 + length greeting) (copy_to 9 greeting checked)

-- `recvBuf` after a read that was offered these bytes.
abbrev pub received : List Cell → List Cell
received offered = take 1024 (offered ++ replicate 1024 (some 0))

-- `fputs`: up to the first zero, beyond the block where there is none.
unfoldable pub until_zero : List Cell → Outcome (List ℕ)
until_zero [] = err out_of_bounds
until_zero (none ∷ rest) = err uninitialised
until_zero (some zero ∷ rest) = ok []
until_zero (some (suc n) ∷ rest) = do xs ← until_zero rest; ok (suc n ∷ xs)

-- `rptLen - 8` bytes are copied, whatever `sstr` has room for.
unfoldable pub print_body : List Cell → Outcome (List ℕ)
unfolding read_u16 until_zero
print_body recv_buf = do
  rpt_len ← read_u16 recv_buf 1
  if leb (sub64 rpt_len 8) 100
      then until_zero
          (take (sub64 rpt_len 8) (drop 9 recv_buf) ++ replicate (100 - sub64 rpt_len 8) (some 0))
      else err out_of_bounds

-- The text that a turn prints.
unfoldable pub print_report : List Cell → Outcome (List ℕ)
unfolding read_byte print_body
print_report recv_buf = do
  mark ← read_byte recv_buf 0
  if mark == 0x3f then print_body recv_buf else ok []

-- The loop of main, for as many lines as there are replies: what is written to the socket, and what
-- is printed. A line itself is not looked at.
unfoldable pub session : List (List Cell) → Outcome (List ℕ × List ℕ)
unfolding print_report
session [] = ok ([], [])
session (reply ∷ rest) = do
  text ← print_report (received reply)
  (written, printed) ← session rest
  ok (request ++ written, text ++ printed)

abbrev pub is_minus_one : ℤ → Bool
is_minus_one (negsuc zero) = true
is_minus_one n = false

-- main, from what socket and connect return. It exits where one of them returns -1, which is none.
unfoldable pub run : (sockfd res : ℤ) → List (List Cell) → Option (Outcome (List ℕ × List ℕ))
unfolding session
run sockfd res replies =
    if is_minus_one sockfd then none else if is_minus_one res then none else some (session replies)
