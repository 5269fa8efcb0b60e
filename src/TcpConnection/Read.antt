-- ===== src/TcpConnection/Read.antt =====
-- Reading until the socket is drained: no byte is lost, and no block is overrun.
use tiny_network_repository.Prelude.{
  ℕ, ◌+◌, ◌*◌, ◌≤◌, ◌<◌, ◌≡◌, refl, sym, ◌∙◌, ap, arith, Bool, true, false, List, [], ◌∷◌, ◌++◌,
  some, map, length, take_all, length-map, append_assoc, append-nil,
}
use mathlib.Core.List.{map-append}
use tiny_network_repository.Prelude.Outcome.{ok}
use tiny_network_repository.Buffer.{Buffer, Cell, contents, space, make_room, max_alloc}
use tiny_network_repository.Buffer.Valid.{IsValid}
use tiny_network_repository.Buffer.Room.{make_room_lem}
use tiny_network_repository.Buffer.Append.{
  written, write_end_lem, written-IsValid, contents-written,
}
use tiny_network_repository.TcpConnection.Input.{
  Reads, got, interrupted, would_block, eof, broken, read_into, read_loop, tcp_handle_read,
}
use tiny_network_repository.TcpConnection.{TcpConnection, recycle}
use tiny_network_repository.RecyThread.{RecyThread, push_connection}
use tiny_network_repository.Poller.{Poller, Channel, read_event, update_channel}
use tiny_network_repository.Channel.{read_enabled, enable_read, switch}
use tiny_network_repository.Channel.Events.{switch-read}

-- The bytes of a script, in order.
abbrev pub bytes : Reads → List ℕ
bytes (got x xs rest) = (x ∷ xs) ++ bytes rest
bytes (interrupted rest) = bytes rest
bytes would_block = []
bytes eof = []
bytes broken = []

abbrev pub total : Reads → ℕ
total (got x xs rest) = length (x ∷ xs) + total rest
total (interrupted rest) = total rest
total would_block = 0
total eof = 0
total broken = 0

-- Whether the peer is still there at the end.
abbrev pub stays : Reads → Bool
stays (got x xs rest) = stays rest
stays (interrupted rest) = stays rest
stays would_block = true
stays eof = false
stays broken = false

-- ::read returns at most the 512 bytes that there is always room for.
abbrev pub Chunked : Reads → Type 0
Chunked (got x xs rest) = (length (x ∷ xs) ≤ 512) × Chunked rest
Chunked (interrupted rest) = Chunked rest
Chunked would_block = Unit {0}
Chunked eof = Unit {0}
Chunked broken = Unit {0}

-- What the buffer can grow to stays small enough to be allocated.
abbrev pub Affordable : Buffer → ℕ → Type 0
Affordable b n = (b.capacity * 2 < max_alloc) × ((2 * (b.end + n) + 1024) * 2 < max_alloc)

read_into_lem :
    {b : Buffer} (xs : List ℕ)
    → IsValid b
    → length xs ≤ space b
    → (b' : Buffer) × (read_into b xs ≡ ok b')
      × IsValid b'
      × (contents b' ≡ contents b ++ map some xs)
      × (b'.end ≡ b.end + length xs)
      × (b'.capacity ≡ b.capacity)
unfolding read_into
read_into_lem {b} xs v fits = (
  written v (map some xs),
  rw (take_all (space b) xs fits, write_end_lem v (map some xs) room),
  written-IsValid v (map some xs) room,
  contents-written v (map some xs) room,
  omega (arith, length-map {A = ℕ} some xs, room, v),
  refl,
)
  where
    room : b.end + length (map some xs) ≤ b.capacity
    room = unfold space in omega (arith, length-map {A = ℕ} {B = Cell} some xs, v)

Roomed : Buffer → ℕ → Type 0
Roomed b n =
    (b' : Buffer) × (make_room b ≡ ok b')
    × IsValid b'
    × (512 ≤ space b')
    × (contents b' ≡ contents b)
    × Affordable b' n

roomed : {b : Buffer} (n : ℕ) → IsValid b → Affordable b n → Roomed b n
unfolding Roomed
roomed {b} n v afford =
    let (b', e, v', room, same, no_later, grown) = make_room_lem v afford.0 in
    (b', e, v', room, same, (omega (arith, grown, no_later), omega (arith, no_later)))

glue :
    {c₀ c₁ c₂ : List Cell} (xs ys : List ℕ)
    → c₁ ≡ c₀
    → c₂ ≡ c₁ ++ map some xs
    → c₂ ++ map some ys ≡ c₀ ++ map some (xs ++ ys)
glue {c₀} xs ys e f = rw (f, e, map-append some xs ys) (append_assoc c₀ (map some xs) (map some ys))

-- The loop, from a buffer that can also grow by `spare` bytes more, leaves one that can.
pub read_loop_spare :
    (spare : ℕ) (reads : Reads) {b : Buffer}
    → IsValid b
    → Chunked reads
    → Affordable b (total reads + spare)
    → (b' : Buffer) × (read_loop reads b ≡ ok (b', stays reads))
      × IsValid b'
      × (contents b' ≡ contents b ++ map some (bytes reads))
      × Affordable b' spare
unfolding read_loop Roomed
read_loop_spare spare (got x xs rest) {b} v small afford =
    let (b₁, e₁, v₁, room, same, afford₁) =
      roomed (length (x ∷ xs) + total rest + spare) v afford in
    let (b₂, e₂, v₂, more, at, cap) = read_into_lem (x ∷ xs) v₁ (omega arith) in
    let (b₃, e₃, v₃, all, left) =
      read_loop_spare spare rest v₂ small.1
        (omega (arith, at, cap, afford₁.0), omega (arith, at, afford₁.1)) in
    (b₃, rw (e₁, e₂) e₃, v₃, all ∙ glue (x ∷ xs) (bytes rest) same more, left)
read_loop_spare spare (interrupted rest) {b} v small afford =
    let (b₁, e₁, v₁, room, same, afford₁) = roomed (total rest + spare) v afford in
    let (b₃, e₃, v₃, all, left) = read_loop_spare spare rest v₁ small afford₁ in
    (b₃, rw e₁ e₃, v₃, all ∙ ap (λ c. c ++ map some (bytes rest)) same, left)
read_loop_spare spare would_block v small (cap, room) =
    let (b₁, e₁, v₁, _, same, afford₁) = roomed spare v (cap, omega (arith, room)) in
    (b₁, rw e₁, v₁, same ∙ sym (append-nil _), afford₁)
read_loop_spare spare eof v small (cap, room) =
    let (b₁, e₁, v₁, _, same, afford₁) = roomed spare v (cap, omega (arith, room)) in
    (b₁, rw e₁, v₁, same ∙ sym (append-nil _), afford₁)
read_loop_spare spare broken v small (cap, room) =
    let (b₁, e₁, v₁, _, same, afford₁) = roomed spare v (cap, omega (arith, room)) in
    (b₁, rw e₁, v₁, same ∙ sym (append-nil _), afford₁)

-- Whatever ::read returns in pieces of 512 bytes at most, starting from a valid buffer that can
-- grow by the bytes read and still be allocated, the loop ends with a valid buffer that holds what
-- was there, then all that was read, in order; and it reports whether the peer is still there.
pub read_loop_lem :
    (reads : Reads) {b : Buffer}
    → IsValid b
    → Chunked reads
    → Affordable b (total reads)
    → (b' : Buffer) × (read_loop reads b ≡ ok (b', stays reads))
      × IsValid b'
      × (contents b' ≡ contents b ++ map some (bytes reads))
read_loop_lem reads {b} v small afford =
    let (b', e, w, all, _) =
      read_loop_spare 0 reads v small (omega (arith, afford.0), omega (arith, afford.1)) in
    (b', e, w, all)

-- tcpHandleRead, from a socket that is drained in pieces of 512 bytes at most, with a valid receive
-- buffer that can grow by these: the bytes are in the receive buffer, the callback is called if
-- there is one, and nothing else changes.
pub tcp_handle_read_drained :
    (now self : ℕ) (reads : Reads) (c : TcpConnection) (t : RecyThread) (p : Poller)
    → IsValid c.recv_buffer
    → Chunked reads
    → Affordable c.recv_buffer (total reads)
    → stays reads ≡ true
    → (b : Buffer) × (tcp_handle_read now self reads c t p
        ≡ ok (record c { recv_buffer = b }, t, p, c.read_task))
      × IsValid b
      × (contents b ≡ contents c.recv_buffer ++ map some (bytes reads))
unfolding tcp_handle_read
tcp_handle_read_drained now self reads c t p v small afford there =
    let (b, e, w, all) = read_loop_lem reads v small afford in (b, rw (e, there), w, all)

-- The same, with `spare` bytes that the buffer can grow by then.
pub tcp_handle_read_spare :
    (now self spare : ℕ) (reads : Reads) (c : TcpConnection) (t : RecyThread) (p : Poller)
    → IsValid c.recv_buffer
    → Chunked reads
    → Affordable c.recv_buffer (total reads + spare)
    → stays reads ≡ true
    → (b : Buffer) × (tcp_handle_read now self reads c t p
        ≡ ok (record c { recv_buffer = b }, t, p, c.read_task))
      × IsValid b
      × (contents b ≡ contents c.recv_buffer ++ map some (bytes reads))
      × Affordable b spare
unfolding tcp_handle_read
tcp_handle_read_spare now self spare reads c t p v small afford there =
    let (b, e, w, all, left) = read_loop_spare spare reads v small afford in
    (b, rw (e, there), w, all, left)

-- tcpHandleRead, from a socket whose peer left or that failed after pieces of 512 bytes at most,
-- with a channel and a valid receive buffer that can grow by these: the callback is not called, the
-- connection is put at the end of the queue of the recycling thread with the time of the clock, its
-- channel asks for no more reading, and the bytes that were read are in the receive buffer.
pub tcp_handle_read_left :
    (now self at : ℕ) (ch : Channel) (reads : Reads) (c : TcpConnection) (t : RecyThread)
    (p : Poller)
    → IsValid c.recv_buffer
    → Chunked reads
    → Affordable c.recv_buffer (total reads)
    → stays reads ≡ false
    → c.channel ≡ some (at, ch)
    → (d : TcpConnection) × (ch' : Channel) × (t' : RecyThread) × (p' : Poller) × (tcp_handle_read
          now self reads c t p
        ≡ ok (d, t', p', false))
      × (t'.event_queue ≡ t.event_queue ++ (self ∷ []))
      × (d.channel ≡ some (at, ch'))
      × (read_enabled ch' ≡ false)
      × (d.in_recy_time_point ≡ now)
      × (contents d.recv_buffer ≡ contents c.recv_buffer ++ map some (bytes reads))
unfolding tcp_handle_read recycle enable_read
tcp_handle_read_left now self at ch reads c t p v small afford left here =
    let (b, e, w, all) = read_loop_lem reads v small afford in
    (
      record c { recv_buffer = b; in_recy_time_point = now; channel = some (at, off) },
      off,
      (push_connection self t).0,
      update_channel at off p,
      rw (e, left, here),
      refl,
      refl,
      (switch-read false ch).0,
      refl,
      all,
    )
  where
    off : Channel
    off = switch read_event false ch
