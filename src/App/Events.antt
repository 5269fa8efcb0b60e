-- ===== src/App/Events.antt =====
-- A connection that becomes readable again and again: the frames of its stream, however the socket
-- delivers them.
use tiny_network_repository.Prelude.{
  ℕ, ◌+◌, ◌<◌, ◌≡◌, sym, ◌∙◌, ap, arith, Bool, true, false, List, [], ◌∷◌, ◌++◌, Option, none, map,
  some, length, if◌then◌else◌, append_assoc, append-nil,
}
use tiny_network_repository.Prelude.Outcome.{Outcome, ok, ◌>>=◌}
use tiny_network_repository.Buffer.{Buffer, Cell, contents}
use tiny_network_repository.Buffer.Valid.{IsValid}
use tiny_network_repository.Codec.{Msg}
use tiny_network_repository.TcpConnection.Input.{Reads}
use tiny_network_repository.TcpConnection.Read.{
  Chunked, Affordable, stays, bytes, total, tcp_handle_read_spare,
}
use tiny_network_repository.App.{Reading, Ended, waiting, recycled, starved}
use tiny_network_repository.App.Serve.{serve}
use tiny_network_repository.App.Parts.{IsPart, read_on, read_task_part}
use tiny_network_repository.App.Frames.{Frame, AllFramed, stream, Delivered}

-- The events of one connection, one after another, as long as the callback waits for more.
abbrev pub go_on :
    (Reading → Outcome (Reading × Option Ended))
    → Reading × Option Ended
    → Outcome (Reading × Option Ended)
go_on more (r, some waiting) = more r
go_on more (r, some recycled) = ok (r, some recycled)
go_on more (r, some starved) = ok (r, some starved)
go_on more (r, none) = ok (r, none)

unfoldable pub serve_all :
    ℕ → ℕ → Bool → ℕ → List Reads → Reading → Outcome (Reading × Option Ended)
unfolding serve
serve_all now self stopped fuel [] r = ok (r, some waiting)
serve_all now self stopped fuel (reads ∷ events) r =
    serve now self stopped fuel reads r >>= go_on (serve_all now self stopped fuel events)

abbrev pub total_all : List Reads → ℕ
total_all [] = 0
total_all (reads ∷ events) = total reads + total_all events

-- What one event brings: with what was left before, the whole frames `whole`, and `left` behind them.
pub record Arrival (fuel : ℕ) (before : List Cell) (reads : Reads) (whole : List Frame)
    (left : List Cell) : Type 0 where
  pub small : Chunked reads
  pub there : stays reads ≡ true
  pub framed : AllFramed whole
  pub few : length whole < fuel
  pub cut : IsPart left
  pub laid : before ++ map some (bytes reads) ≡ stream whole ++ left

-- The events bring the frames, and `left` behind them; each event ends between two frames, or behind
-- the header of one.
pub data Arrivals (fuel : ℕ) : List Cell → List Reads → List Frame → List Cell → Type 0 where
  over : {left : List Cell} → Arrivals fuel left [] [] left
  event :
      {before middle left : List Cell} {reads : Reads} {events : List Reads} {fs gs : List Frame}
      → Arrival fuel before reads fs middle
      → Arrivals fuel middle events gs left
      → Arrivals fuel before (reads ∷ events) (fs ++ gs) left

Delivered-append :
    (seq self : ℕ) (fs gs : List Frame) (ms ns : List Msg)
    → Delivered seq self fs ms
    → Delivered seq self gs ns
    → Delivered seq self (fs ++ gs) (ms ++ ns)
Delivered-append seq self [] gs [] ns d e = e
Delivered-append seq self [] gs (m ∷ ms) ns d e = absurd d
Delivered-append seq self (f ∷ fs) gs [] ns d e = absurd d
Delivered-append seq self (f ∷ fs) gs (m ∷ ms) ns (a, b, c, v, t, d) e =
    (a, b, c, v, t, Delivered-append seq self fs gs ms ns d e)

module _ (now self fuel : ℕ) where
  one_event :
      (reads : Reads) (fs : List Frame) (before left : List Cell) (spare : ℕ) (r : Reading)
      → Arrival fuel before reads fs left
      → IsValid r.conn.recv_buffer
      → Affordable r.conn.recv_buffer (total reads + spare)
      → r.conn.read_task ≡ true
      → contents r.conn.recv_buffer ≡ before
      → (b : Buffer) × (ms : List Msg) × (serve now self false fuel reads r
          ≡ ok (read_on b ms r, some waiting))
        × Delivered r.conn.cur_sequence self fs ms
        × IsValid b
        × (contents b ≡ left)
        × Affordable b spare
  unfolding serve
  one_event reads fs before left spare r v valid afford set e =
      let (b₁, read, u, all, (cap, room)) =
        tcp_handle_read_spare now self spare reads r.conn r.recy r.poller valid v.small afford
          v.there in
      let r₁ : Reading = record r { conn = record r.conn { recv_buffer = b₁ } } in
      let (b, ms, done, delivered, w, same, ends, caps) =
        read_task_part now self fs left fuel r₁ u v.framed v.cut
          (all ∙ ap (λ c. c ++ map some (bytes reads)) e ∙ v.laid) v.few in
      (
        b,
        ms,
        rw (read, done)
            (ap
              (λ (called : Bool).
                if called then ok (read_on b ms r, some waiting) else ok (r₁, none))
              set),
        delivered,
        w,
        same,
        (omega (arith, cap, caps), omega (arith, room, ends)),
      )

  -- A connection with a read callback and a running thread pool becomes readable again and again,
  -- each time drained in pieces of 512 bytes at most, with more rounds than the frames that the
  -- event completes, and its valid receive buffer can grow by all the bytes; each event ends behind
  -- a whole frame, or behind the header of one. Then, however the stream is cut into events, the
  -- reports of its whole frames go to the thread pool, once each and in order, for the peer that
  -- the connection has; what is left of a frame is in the buffer, nothing is recycled, and nothing
  -- else of the connection changes.
  pub serve_all_lem :
      {before left : List Cell} {events : List Reads} {fs : List Frame} (r : Reading)
      → Arrivals fuel before events fs left
      → IsValid r.conn.recv_buffer
      → Affordable r.conn.recv_buffer (total_all events)
      → r.conn.read_task ≡ true
      → contents r.conn.recv_buffer ≡ before
      → (b : Buffer) × (ms : List Msg) × (serve_all now self false fuel events r
          ≡ ok (read_on b ms r, some waiting))
        × Delivered r.conn.cur_sequence self fs ms
        × IsValid b
        × (contents b ≡ left)
  unfolding serve_all
  serve_all_lem r over valid afford set e = (
    r.conn.recv_buffer,
    [],
    ap (λ ts. ok (record r { tasks = ts }, some waiting)) (sym (append-nil r.tasks)),
    tt,
    valid,
    e,
  )
  serve_all_lem {before} {events = reads ∷ events} r
        (event {middle = middle} {fs = fs} {gs = gs} first rest) valid afford set e =
      let (b₁, ms, served, delivered, v₁, e₁, afford₁) =
        one_event reads fs before middle (total_all events) r first valid afford set e in
      let (b, ns, more, delivered', v, left) =
        serve_all_lem (read_on b₁ ms r) rest v₁ afford₁ set e₁ in
      (
        b,
        ms ++ ns,
        rw served more
            ∙ ap
                (λ ts.
                  ok (
                    record r { conn = record r.conn { recv_buffer = b }; tasks = ts },
                    some waiting,
                  ))
                (append_assoc r.tasks ms ns),
        Delivered-append r.conn.cur_sequence self fs gs ms ns delivered delivered',
        v,
        left,
      )
