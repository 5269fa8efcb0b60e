-- ===== src/TcpConnection/Output.antt =====
-- The writing side of net/tiny_tcpconnection.cxx. What ::write returns is a script, which may end
-- before the loop of isend does: the result none says that the loop still runs.
use tiny_network_repository.Prelude.{
  ℕ, ◌-◌, ◌^◌, min, Bool, true, false, ◌&&◌, List, [], ◌∷◌, ◌++◌, Option, none, some, take, drop,
  if◌then◌else◌, ltb,
}
use tiny_network_repository.Prelude.Outcome.{Outcome, ok, err, null_pointer, ◌>>=◌, add64}
use tiny_network_repository.Buffer
use tiny_network_repository.Buffer.{Buffer, Cell}
use tiny_network_repository.Poller.{Channel, Poller}
use tiny_network_repository.Channel
use tiny_network_repository.TcpConnection.{TcpConnection, Errno, eintr, eagain}
use mathlib.Core.Option

pub data WriteResult : Type 0 where
  wrote : ℕ → WriteResult
  failed : Errno → WriteResult

-- `size_t wd = writeImp(…)`: -1 becomes the largest size_t.
abbrev pub minus_one : ℕ
minus_one = 2 ^ 64 - 1

abbrev pub as_size : WriteResult → ℕ → ℕ
as_size (wrote n) asked = min n asked
as_size (failed e) asked = minus_one

abbrev is_eintr : WriteResult → Bool
is_eintr (failed eintr) = true
is_eintr _ = false

abbrev is_eagain : WriteResult → Bool
is_eagain (failed eagain) = true
is_eagain _ = false

-- What went out, how many bytes isend reports, and whether it came to start event-driven sending.
pub record Sent : Type 0 where
  pub nsend : ℕ
  pub wire : List Cell
  pub event_mode : Bool

-- The bytes that a call of ::write took from `buf + nsend`.
abbrev pub taken : List Cell → ℕ → ℕ → WriteResult → List Cell
taken buf len nsend (wrote n) = take (min n (len - nsend)) (drop nsend buf)
taken buf len nsend (failed e) = []

-- The loop of isend. The tests `wd < 0` are of a size_t.
unfoldable pub isend_loop : List Cell → ℕ → Sent → List WriteResult → Option Sent
isend_loop buf len s [] = if ltb s.nsend len then none else some s
isend_loop buf len s (r ∷ rs) =
    let wd = as_size r (len - s.nsend) in
    let more =
      isend_loop buf len
        (record s { nsend = add64 s.nsend wd; wire = s.wire ++ taken buf len s.nsend r }) rs in
    let again = isend_loop buf len s rs in
    if ltb s.nsend len
    then (if ltb 0 wd
        then more
        else if ltb wd 0 && is_eintr r
        then again
        else if ltb wd 0 && is_eagain r
        then some (record s { event_mode = true })
        else some s)
    else some s

unfoldable pub isend : List Cell → ℕ → List WriteResult → Option Sent
isend buf len rs = isend_loop buf len (record { nsend = 0; wire = []; event_mode = false }) rs

-- What the branch for a full send buffer does: it enables reading.
abbrev pub full_branch : TcpConnection → Option (ℕ × Channel) → Poller → TcpConnection × Poller
full_branch c none p = (c, p)
full_branch c (some (at, ch)) p =
    let (ch', p') = Channel.enable_read at true ch p in
    if Channel.write_enabled ch
    then (c, p)
    else (record c { use_send_event = true; channel = some (at, ch') }, p')

unfoldable pub settle : Bool → TcpConnection → Poller → TcpConnection × Poller
settle event_mode c p = if event_mode then full_branch c c.channel p else (c, p)

-- The result of send, the buffer that it was given, and what went out.
pub record Reply : Type 0 where
  pub result : ℕ
  pub buffer : Buffer
  pub conn : TcpConnection
  pub poller : Poller
  pub wire : List Cell

-- The end of send: what is left goes to the write buffer.
unfoldable pub keep_rest : Buffer → TcpConnection → Poller → List Cell → Outcome Reply
keep_rest b c p wire =
    if ltb 0 (Buffer.size b)
    then (do
      w ← Buffer.append c.write_buffer (Buffer.from_data b) (Buffer.size b)
      ok (record {
        result = 1;
        buffer = b;
        conn = record c { write_buffer = w };
        poller = p;
        wire = wire;
      }))
    else ok (record { result = 0; buffer = b; conn = c; poller = p; wire = wire })

unfoldable pub after_isend : Buffer → TcpConnection → Poller → Sent → Outcome Reply
after_isend b c p s =
    let (c', p') = settle s.event_mode c p in keep_rest (Buffer.consumed b s.nsend) c' p' s.wire

abbrev pub has_channel : TcpConnection → Bool
has_channel c = elim c.channel [ none ↦ false | some _ ↦ true ]

unfoldable pub send : List WriteResult → Buffer → TcpConnection → Poller → Option (Outcome Reply)
send rs b c p =
    if has_channel c
    then (if c.use_send_event
        then some (ok (record { result = minus_one; buffer = b; conn = c; poller = p; wire = [] }))
        else if ltb 0 (Buffer.size b)
        then Option.map (after_isend b c p) (isend (Buffer.from_data b) (Buffer.size b) rs)
        else some (keep_rest b c p []))
    else some (ok (record { result = 0; buffer = b; conn = c; poller = p; wire = [] }))

-- `m_channel->enableWrite(false)` and the end of event-driven sending, where all is sent.
abbrev pub finish_write :
    TcpConnection → Option (ℕ × Channel) → Poller → Outcome (TcpConnection × Poller)
finish_write c none p = err null_pointer
finish_write c (some (at, ch)) p =
    let (ch', p') = Channel.enable_write at false ch p in
    if Channel.write_enabled ch
    then ok (record c { channel = some (at, ch'); use_send_event = false }, p')
    else ok (c, p)

unfoldable pub after_write :
    TcpConnection → Poller → Sent → Outcome (TcpConnection × Poller × List Cell)
after_write c p s = do
  let (c', p') = settle s.event_mode c p
  let w = Buffer.consumed c'.write_buffer s.nsend
  let c'' = record c' { write_buffer = w }
  (d, q) ← if Buffer.is_empty w then finish_write c'' c''.channel p' else ok (c'', p')
  ok (d, q, s.wire)

unfoldable pub tcp_handle_write :
    List WriteResult
    → TcpConnection
    → Poller
    → Option (Outcome (TcpConnection × Poller × List Cell))
tcp_handle_write rs c p =
    if ltb 0 (Buffer.size c.write_buffer)
    then Option.map (after_write c p)
        (isend (Buffer.from_data c.write_buffer) (Buffer.size c.write_buffer) rs)
    else some (ok (c, p, []))
