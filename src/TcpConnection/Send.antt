-- ===== src/TcpConnection/Send.antt =====
-- What goes out by `send`, and what a failing ::write does to it.
use mathlib.Core.Option
use tiny_network_repository.Prelude.{
  ◌+◌, ◌*◌, ◌^◌, ◌<◌, ◌≡◌, refl, sym, ◌∙◌, ap, arith, true, false, List, [], ◌∷◌, Option, none,
  some, length, take, ltb, leb, Bool-cases, inl, inr, length-drop, drop_all,
}
use tiny_network_repository.Prelude.Outcome.{ok, err, out_of_bounds, >>=-eq-ok}
use tiny_network_repository.Buffer.{
  Buffer, Cell, contents, size, from_data, consumed, append, max_alloc,
}
use tiny_network_repository.Buffer.Valid.{
  IsValid, size_lem, contents-consumed, length-contents, consumed_all,
}
use tiny_network_repository.Buffer.Append.{make_room_for_total}
use tiny_network_repository.Poller.{Poller}
use tiny_network_repository.TcpConnection.{TcpConnection, Errno}
use tiny_network_repository.TcpConnection.Output.{
  WriteResult, failed, Sent, Reply, isend, minus_one, send, has_channel, after_isend, keep_rest,
  settle,
}
use tiny_network_repository.TcpConnection.Isend.{Takes, isend_complete, isend_failed, isend-event}

module _ (b : Buffer) (c : TcpConnection) (p : Poller) (rs : List WriteResult) (v : IsValid b)
    (ch : has_channel c ≡ true) (direct : c.use_send_event ≡ false) (some_left : 0 < size b) where
  sends : send rs b c p ≡ Option.map (after_isend b c p) (isend (from_data b) (size b) rs)
  unfolding send
  sends = let test : ltb 0 (size b) ≡ true = ground arith in rw (ch, direct, test)

  -- With an open connection that sends directly, a valid buffer that is not empty, and a socket
  -- that takes all its bytes, `send` returns 0; the bytes went out in order, the buffer is left
  -- empty, and the connection is as it was.
  pub send_complete :
      Takes (size b) rs
      → (b' : Buffer) × (send rs b c p
          ≡ some (ok (record { result = 0; buffer = b'; conn = c; poller = p; wire = contents b })))
        × (contents b' ≡ [])
  unfolding after_isend settle keep_rest
  send_complete t =
      let small : size b < 2 ^ 64 = omega (arith, size_lem v, v) in
      let test : ltb 0 (size rest) ≡ false = ground (arith, consumed_all v) in
      (
        rest,
        rw (sends, isend_complete (from_data b) (size b) rs small t, test)
            (ap (λ w. some (ok (reply w))) all_wire),
        contents-consumed (size b) (omega arith) v
            ∙ drop_all (size b) (contents b) (omega (arith, length-contents v)),
      )
    where
      rest : Buffer
      rest = consumed b (size b)

      reply : List Cell → Reply
      reply w = record { result = 0; buffer = rest; conn = c; poller = p; wire = w }

      all_wire : take (size b) (from_data b) ≡ contents b
      all_wire = unfold contents in refl

-- Consuming 2^64 - 1 bytes takes the beginning of the bytes back by one, in front of the block.
consumed-minus_one :
    {b : Buffer}
    → IsValid b
    → b.begin ≡ 0
    → let b' = consumed b minus_one in
      (size b' ≡ size b + 1) × (b'.begin ≡ minus_one) × (b'.buf ≡ b.buf)
unfolding consumed size
consumed-minus_one v start = ground arith

-- With an open connection that sends directly, a valid buffer that is not empty and starts at the
-- front of its block, and a valid write buffer that can grow by its bytes: where the first call of
-- ::write fails, for whatever reason, a full socket buffer included, `send` reads outside the
-- buffer that it was given.
pub send_failed :
    (b : Buffer) (c : TcpConnection) (p : Poller) (e : Errno) (rs : List WriteResult)
    → IsValid b
    → IsValid c.write_buffer
    → b.begin ≡ 0
    → 0 < size b
    → has_channel c ≡ true
    → c.use_send_event ≡ false
    → c.write_buffer.capacity * 2 < max_alloc
    → size c.write_buffer + size b + 1 < max_alloc
    → send (failed e ∷ rs) b c p ≡ some (err out_of_bounds)
unfolding after_isend settle keep_rest append
send_failed b c p e rs v w start some_left ch direct h k =
    let (w', made) = make_room_for_total (size b') w h (omega (arith, after)) in
    let test : ltb 0 (size b') ≡ true = ground (arith, after) in
    let unread : leb (size b') (length (from_data b')) ≡ false = ground (arith, after, behind) in
    rw (
      sends b c p (failed e ∷ rs) v ch direct some_left,
      isend_failed (from_data b) (size b) e rs some_left (omega (arith, size_lem v, v)),
      test,
      made,
      unread,
    )
  where
    b' : Buffer
    b' = consumed b minus_one

    after : size b' ≡ size b + 1
    after = (consumed-minus_one v start).0

    behind : length (from_data b') ≡ 0
    behind =
        let (_, at, same) = consumed-minus_one v start in
        omega (arith, length-drop b'.begin b'.buf, ap length same, at, v)

abbrev Undisturbed : TcpConnection → Poller → Reply → Type 0
Undisturbed c p r =
    (r.conn.use_send_event ≡ c.use_send_event) × (r.conn.channel ≡ c.channel) × (r.poller ≡ p)

keep_rest-Undisturbed :
    (b : Buffer) (c : TcpConnection) (p : Poller) (wire : List Cell) {r : Reply}
    → keep_rest b c p wire ≡ ok r
    → Undisturbed c p r
unfolding keep_rest
keep_rest-Undisturbed b c p wire {r} h = elim (Bool-cases (ltb 0 (size b))) [
  | inl more ↦
      let (w, _, e) = >>=-eq-ok (append c.write_buffer (from_data b) (size b)) _ (rw more at h) in
      ground arith
  | inr none_left ↦ let e = rw none_left at h in ground arith
]

after_isend-Undisturbed :
    (b : Buffer) (c : TcpConnection) (p : Poller) (s : Sent) {r : Reply}
    → s.event_mode ≡ false
    → after_isend b c p s ≡ ok r
    → Undisturbed c p r
unfolding after_isend settle
after_isend-Undisturbed b c p s e h =
    keep_rest-Undisturbed (consumed b s.nsend) c p s.wire (rw e at h)

unwrap {ℓ} : {A : Type ℓ} {a b : A} → ◌≡◌ {A = Option A} (some a) (some b) → a ≡ b
unwrap h = cc

mapped-Undisturbed :
    (b : Buffer) (c : TcpConnection) (p : Poller) (o : Option Sent) {r : Reply}
    → ((s : Sent) → o ≡ some s → s.event_mode ≡ false)
    → Option.map (after_isend b c p) o ≡ some (ok r)
    → Undisturbed c p r
mapped-Undisturbed b c p none off h = cc
mapped-Undisturbed b c p (some s) {r} off h =
    after_isend-Undisturbed b c p s (off s refl) (unwrap h)

-- A `send` that returns never starts event-driven sending: the flag, the channel and the poller
-- stay as they are.
pub send_direct :
    (rs : List WriteResult) (b : Buffer) (c : TcpConnection) (p : Poller) {r : Reply}
    → send rs b c p ≡ some (ok r)
    → (r.conn.use_send_event ≡ c.use_send_event) × (r.conn.channel ≡ c.channel) × (r.poller ≡ p)
unfolding send
send_direct rs b c p {r} h = elim (Bool-cases (has_channel c)) [
  | inr no_channel ↦ let e = rw no_channel at h in ground arith
  | inl ch ↦ elim (Bool-cases c.use_send_event) [
    | inl driven ↦ let e = rw (ch, driven) at h in ground arith
    | inr direct ↦ elim (Bool-cases (ltb 0 (size b))) [
      | inl more ↦
          mapped-Undisturbed b c p (isend (from_data b) (size b) rs)
            (λ s e. isend-event (from_data b) (size b) rs e) (sym (chosen more ch direct) ∙ h)
      | inr none_left ↦
          keep_rest-Undisturbed b c p [] (unwrap (sym (empty none_left ch direct) ∙ h))
    ]
  ]
]
  where
    chosen :
        ltb 0 (size b) ≡ true
        → has_channel c ≡ true
        → c.use_send_event ≡ false
        → send rs b c p ≡ Option.map (after_isend b c p) (isend (from_data b) (size b) rs)
    chosen more ch direct = rw (ch, direct, more)

    empty :
        ltb 0 (size b) ≡ false
        → has_channel c ≡ true
        → c.use_send_event ≡ false
        → send rs b c p ≡ some (keep_rest b c p [])
    empty none_left ch direct = rw (ch, direct, none_left)
