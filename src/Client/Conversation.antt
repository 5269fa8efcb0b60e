-- ===== src/Client/Conversation.antt =====
-- The client and the server: what the client writes, the server reads and answers, and the client
-- prints of the answers.
use tiny_network_repository.Prelude.{
  ℕ, zero, suc, ◌≡◌, refl, sym, ◌∙◌, ap, true, false, List, [], ◌∷◌, ◌++◌, some, map, length,
  replicate, text_codes, append-nil, length-replicate,
}
use tiny_network_repository.Prelude.Outcome.{ok}
use tiny_network_repository.Buffer.{Buffer, Cell, contents}
use tiny_network_repository.Buffer.Valid.{IsValid}
use tiny_network_repository.Codec.{Msg, encode, header}
use tiny_network_repository.TcpConnection.Input.{Reads}
use tiny_network_repository.TcpConnection.Read.{Affordable}
use tiny_network_repository.App.{Reading, waiting, answer}
use tiny_network_repository.App.Frames.{Frame, stream, Delivered}
use tiny_network_repository.App.Parts.{read_on}
use tiny_network_repository.App.Events.{Arrivals, serve_all, serve_all_lem, total_all}
use tiny_network_repository.Client.{request, session, received, print_report, greeting}
use tiny_network_repository.Client.Answered.{answer_printed}

-- The request as a frame: of type 0, with the greeting.
abbrev pub asked_frame : Frame
asked_frame = record { head = record { rpt_len = 13; type = 0 }; body = map some greeting }

-- The same bytes, `n` times.
abbrev pub times : ℕ → List ℕ → List ℕ
times zero xs = []
times (suc n) xs = xs ++ times n xs

map-append : (xs ys : List ℕ) → map {B = Cell} some (xs ++ ys) ≡ map some xs ++ map some ys
map-append [] ys = refl
map-append (x ∷ xs) ys = ap (◌∷◌ (some x)) (map-append xs ys)

-- What the client writes for `n` lines is a stream of `n` frames.
request-stream : (n : ℕ) → map {B = Cell} some (times n request) ≡ stream (replicate n asked_frame)
request-stream zero = refl
request-stream (suc n) =
    map-append request (times n request)
    ∙ ap (λ c. header asked_frame.head ++ (asked_frame.body ++ c)) (request-stream n)

-- The replies are the encoded answers to the messages, for the same connections and peers.
abbrev pub AllAnswered : List Msg → List (List Cell) → Type 0
AllAnswered [] [] = Unit {0}
AllAnswered [] (c ∷ cs) = ⊥
AllAnswered (m ∷ ms) [] = ⊥
AllAnswered (m ∷ ms) (c ∷ cs) =
    ((a : Msg) × (b : Buffer) × (answer m ≡ ok a)
      × (a.msg_head ≡ m.msg_head)
      × (encode a.rpt ≡ ok b)
      × (c ≡ contents b))
    × AllAnswered ms cs

abbrev pub confirmation : List ℕ
confirmation = text_codes "recv ok, notify you"

all_answered :
    (ms : List Msg)
    → (replies : List (List Cell)) × AllAnswered ms replies
      × (session replies ≡ ok (times (length ms) request, times (length ms) confirmation))
unfolding session
all_answered [] = ([], tt, refl)
all_answered (m ∷ ms) =
    let (a, b, e, head, enc, printed) = answer_printed m [] in
    let (replies, answered, rest) = all_answered ms in
    let alone : print_report (received (contents b)) ≡ ok confirmation =
      ap (λ c. print_report (received c)) (sym (append-nil (contents b))) ∙ printed in
    (contents b ∷ replies, ((a, b, e, head, enc, refl), answered), rw (alone, rest) refl)

length-Delivered :
    (seq self : ℕ) (fs : List Frame) (ms : List Msg)
    → Delivered seq self fs ms
    → length ms ≡ length fs
length-Delivered seq self [] [] d = refl
length-Delivered seq self [] (m ∷ ms) d = absurd d
length-Delivered seq self (f ∷ fs) [] d = absurd d
length-Delivered seq self (f ∷ fs) (m ∷ ms) (_, _, _, _, _, d) =
    ap suc (length-Delivered seq self fs ms d)

-- What the client writes for `n` lines, cut in any way into events that each end between two frames
-- or behind the header of one, comes to a connection with an empty receive buffer that can grow by
-- it, a read callback and a running thread pool, with more rounds than the frames that an event
-- completes: then the thread pool gets `n` messages, for the peer that the connection has; the
-- business task answers each of them, to the connection and the peer of the message; and when the
-- encoded answers come back, one for each read, the client, having written just that, prints the
-- text of the server `n` times.
pub conversation :
    (n now self fuel : ℕ) (r : Reading) {events : List Reads}
    → Arrivals fuel [] events (replicate n asked_frame) []
    → IsValid r.conn.recv_buffer
    → Affordable r.conn.recv_buffer (total_all events)
    → r.conn.read_task ≡ true
    → contents r.conn.recv_buffer ≡ []
    → (b : Buffer) × (ms : List Msg) × (replies : List (List Cell)) × (map some (times n request)
        ≡ stream (replicate n asked_frame))
      × (serve_all now self false fuel events r ≡ ok (read_on b ms r, some waiting))
      × (length ms ≡ n)
      × Delivered r.conn.cur_sequence self (replicate n asked_frame) ms
      × AllAnswered ms replies
      × (session replies ≡ ok (times n request, times n confirmation))
conversation n now self fuel r arrivals valid afford set e =
    let (b, ms, served, delivered, _, _) =
      serve_all_lem now self fuel r arrivals valid afford set e in
    let (replies, answered, printed) = all_answered ms in
    let count : length ms ≡ n =
      length-Delivered r.conn.cur_sequence self (replicate n asked_frame) ms delivered
      ∙ length-replicate n asked_frame in
    (
      b,
      ms,
      replies,
      request-stream n,
      served,
      count,
      delivered,
      answered,
      printed ∙ ap (λ k. ok (times k request, times k confirmation)) count,
    )
