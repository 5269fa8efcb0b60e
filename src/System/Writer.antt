-- ===== src/System/Writer.antt =====
-- What sending keeps of a connection.
use mathlib.Core.Option
use tiny_network_repository.Prelude.{
  [], ℕ, ◌≡◌, refl, sym, ◌∙◌, true, Bool, List, Option, none, some, if_lem, if◌then◌else◌, ltb,
}
use tiny_network_repository.Prelude.Outcome.{
  Outcome, ok, WhenOk, WhenOk->>=, WhenOk-vacuous, WhenDone,
}
use tiny_network_repository.Buffer
use tiny_network_repository.Buffer.{Buffer, Cell, size, consumed}
use tiny_network_repository.Poller.{Channel, Poller}
use tiny_network_repository.Channel.{write_enabled}
use tiny_network_repository.TcpConnection.{TcpConnection}
use tiny_network_repository.TcpConnection.Output.{
  WriteResult, has_channel, Reply, Sent, send, settle, after_isend, keep_rest, isend,
  tcp_handle_write, after_write, full_branch, finish_write,
}

pub record SamePeer (c c' : TcpConnection) : Type 0 where
  pub sequence : c'.cur_sequence ≡ c.cur_sequence
  pub peer : c'.peer ≡ c.peer
  pub channel : has_channel c' ≡ has_channel c
  pub pool : c'.conn_pool ≡ c.conn_pool

SamePeer-refl : (c : TcpConnection) → SamePeer c c
SamePeer-refl c = record { sequence = refl; peer = refl; channel = refl; pool = refl }

ended {ℓ κ μ} :
    {A : Type ℓ} {B : Type κ} (Q : B → Type μ) (o : Option A) (next : A → Outcome B)
    → ((x : A) → WhenOk Q (next x))
    → WhenDone Q (Option.map next o)
ended Q none next f = tt
ended Q (some x) next f = f x

full_branch-SamePeer :
    (c : TcpConnection) (o : Option (ℕ × Channel)) (p : Poller)
    → c.channel ≡ o
    → SamePeer c (full_branch c o p).0
full_branch-SamePeer c none p is = SamePeer-refl c
full_branch-SamePeer c (some (at, ch)) p is =
    if_lem (λ (r : TcpConnection × Poller). SamePeer c r.0) (write_enabled ch)
      (λ e. SamePeer-refl c)
      (λ e. record { sequence = refl; peer = refl; channel = rw is refl; pool = refl })

settle-SamePeer : (b : Bool) (c : TcpConnection) (p : Poller) → SamePeer c (settle b c p).0
unfolding settle
settle-SamePeer b c p =
    if_lem (λ (r : TcpConnection × Poller). SamePeer c r.0) b
      (λ e. full_branch-SamePeer c c.channel p refl) (λ e. SamePeer-refl c)

keep_rest-SamePeer :
    (d : TcpConnection) (b : Buffer) (c : TcpConnection) (p : Poller) (wire : List Cell)
    → SamePeer d c
    → WhenOk (λ r. SamePeer d r.conn) (keep_rest b c p wire)
unfolding keep_rest
keep_rest-SamePeer d b c p wire v =
    let appended = Buffer.append c.write_buffer (Buffer.from_data b) (size b) in
    if_lem (WhenOk (λ r. SamePeer d r.conn)) (ltb 0 (size b))
      (λ e.
        WhenOk->>= (λ r. SamePeer d r.conn) appended _ (WhenOk-vacuous appended)
          (λ w u. record {
            sequence = v.sequence;
            peer = v.peer;
            channel = v.channel;
            pool = v.pool;
          }))
      (λ e. v)

after_isend-SamePeer :
    (b : Buffer) (c : TcpConnection) (p : Poller) (s : Sent)
    → WhenOk (λ r. SamePeer c r.conn) (after_isend b c p s)
unfolding after_isend
after_isend-SamePeer b c p s =
    let (c', p') = settle s.event_mode c p in
    keep_rest-SamePeer c (consumed b s.nsend) c' p' s.wire (settle-SamePeer s.event_mode c p)

-- The answer goes to the peer of the connection, and the connection keeps it.
pub send-SamePeer :
    (script : List WriteResult) (b : Buffer) (c : TcpConnection) (p : Poller)
    → WhenDone (λ r. SamePeer c r.conn) (send script b c p)
unfolding send
send-SamePeer script b c p =
    let Q : Option (Outcome Reply) → Type 0 = WhenDone (λ r. SamePeer c r.conn) in
    if_lem Q (has_channel c)
      (λ e₀.
        if_lem Q c.use_send_event (λ e. SamePeer-refl c)
          (λ e.
            if_lem Q (ltb 0 (size b))
              (λ some_left.
                ended (λ r. SamePeer c r.conn) (isend (Buffer.from_data b) (size b) script) _
                  (after_isend-SamePeer b c p))
              (λ none_left. keep_rest-SamePeer c b c p [] (SamePeer-refl c))))
      (λ closed. SamePeer-refl c)

finish_write-SamePeer :
    (d c : TcpConnection) (o : Option (ℕ × Channel)) (p : Poller)
    → c.channel ≡ o
    → SamePeer d c
    → WhenOk (λ r. SamePeer d r.0) (finish_write c o p)
finish_write-SamePeer d c none p is v = tt
finish_write-SamePeer d c (some (at, ch)) p is v =
    let there : has_channel c ≡ true = rw is refl in
    if_lem (WhenOk (λ r. SamePeer d r.0)) (write_enabled ch)
      (λ e. record {
        sequence = v.sequence;
        peer = v.peer;
        channel = sym there ∙ v.channel;
        pool = v.pool;
      })
      (λ e. v)

after_write-SamePeer :
    (c : TcpConnection) (p : Poller) (s : Sent) → WhenOk (λ r. SamePeer c r.0) (after_write c p s)
unfolding after_write
after_write-SamePeer c p s =
    let (c', p') = settle s.event_mode c p in
    let v = settle-SamePeer s.event_mode c p in
    let w = consumed c'.write_buffer s.nsend in
    let c'' = record c' { write_buffer = w } in
    let v' : SamePeer c c'' = record {
      sequence = v.sequence;
      peer = v.peer;
      channel = v.channel;
      pool = v.pool;
    } in
    WhenOk->>= (λ r. SamePeer c r.0)
      (if Buffer.is_empty w then finish_write c'' c''.channel p' else ok (c'', p')) _
      (if_lem (WhenOk (λ r. SamePeer c r.0)) (Buffer.is_empty w)
        (λ e. finish_write-SamePeer c c'' c''.channel p' refl v') (λ e. v'))
      (λ r u. u)

pub tcp_handle_write-SamePeer :
    (script : List WriteResult) (c : TcpConnection) (p : Poller)
    → WhenDone (λ r. SamePeer c r.0) (tcp_handle_write script c p)
unfolding tcp_handle_write
tcp_handle_write-SamePeer script c p =
    let b = c.write_buffer in
    if_lem (WhenDone (λ r. SamePeer c r.0)) (ltb 0 (size b))
      (λ some_left.
        ended (λ r. SamePeer c r.0) (isend (Buffer.from_data b) (size b) script) _
          (after_write-SamePeer c p))
      (λ none_left. SamePeer-refl c)
