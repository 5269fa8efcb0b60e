-- ===== src/System/Reader.antt =====
-- What reading keeps of a connection, and for whom it puts tasks into the thread pool.
use tiny_network_repository.Prelude.{
  List, append_assoc, append-nil, sym, ap, ◌++◌, ℕ, zero, suc, ◌≡◌, refl, ◌∙◌, false, [], ◌∷◌,
  Option, none, some, All, All-append, if_lem,
}
use tiny_network_repository.Prelude.Int.{ℤ, pos, negsuc}
use tiny_network_repository.Prelude.Outcome.{Outcome, WhenOk, WhenOk->>=, WhenOk-vacuous}
use tiny_network_repository.Codec.{Msg, Rpt, decode}
use tiny_network_repository.Poller.{Channel, Poller}
use tiny_network_repository.RecyThread.{RecyThread, push_connection}
use tiny_network_repository.TcpConnection.{TcpConnection, recycle, disable_read}
use tiny_network_repository.TcpConnection.Input.{
  Reads, read_loop, tcp_handle_read, get_recv_buffer_addr, get_recv_buffer_size,
  consumed_recv_buffer_size,
}
use tiny_network_repository.TcpConnection.Output.{has_channel}
use tiny_network_repository.App.{Reading, Ended, read_task, take_report, give_up, react}
use tiny_network_repository.App.Serve.{serve}

-- The connection has the same peer, and the same to send.
pub record IsSame (c c' : TcpConnection) : Type 0 where
  pub sequence : c'.cur_sequence ≡ c.cur_sequence
  pub peer : c'.peer ≡ c.peer
  pub channel : has_channel c' ≡ has_channel c
  pub write_buffer : c'.write_buffer ≡ c.write_buffer
  pub pool : c'.conn_pool ≡ c.conn_pool

IsSame-refl : (c : TcpConnection) → IsSame c c
IsSame-refl c = record {
  sequence = refl;
  peer = refl;
  channel = refl;
  write_buffer = refl;
  pool = refl;
}

IsSame-trans : {a b c : TcpConnection} → IsSame a b → IsSame b c → IsSame a c
IsSame-trans v w = record {
  sequence = w.sequence ∙ v.sequence;
  peer = w.peer ∙ v.peer;
  channel = w.channel ∙ v.channel;
  write_buffer = w.write_buffer ∙ v.write_buffer;
  pool = w.pool ∙ v.pool;
}

disable_read-IsSame :
    (c : TcpConnection) (o : Option (ℕ × Channel)) (p : Poller)
    → c.channel ≡ o
    → WhenOk (λ r. IsSame c r.0) (disable_read c o p)
disable_read-IsSame c none p at = tt
disable_read-IsSame c (some (a, ch)) p at = record {
  sequence = refl;
  peer = refl;
  channel = rw at refl;
  write_buffer = refl;
  pool = refl;
}

-- The connection may have put itself at the end of the queue of the recycling thread.
abbrev pub Requeues : ℕ → RecyThread → RecyThread → Type 0
Requeues self t t' = (xs : List ℕ) × (t'.event_queue ≡ t.event_queue ++ xs) × All (λ x. x ≡ self) xs

Requeues-refl : (self : ℕ) (t : RecyThread) → Requeues self t t
Requeues-refl self t = ([], sym (append-nil t.event_queue), tt)

Requeues-trans :
    (self : ℕ) (a b c : RecyThread) → Requeues self a b → Requeues self b c → Requeues self a c
Requeues-trans self a b c (xs, e, h) (ys, f, k) = (
  xs ++ ys,
  f ∙ ap (λ q. q ++ ys) e ∙ append_assoc a.event_queue xs ys,
  All-append (λ x. x ≡ self) xs ys h k,
)

pub record Stays (self : ℕ) (c : TcpConnection) (t : RecyThread) (c' : TcpConnection)
    (t' : RecyThread) : Type 0 where
  pub same : IsSame c c'
  pub queue : Requeues self t t'

Stays-trans :
    {self : ℕ} {a b c : TcpConnection} {t u v : RecyThread}
    → Stays self a t b u
    → Stays self b u c v
    → Stays self a t c v
Stays-trans {self} {t = t} {u = u} {v = t'} v w = record {
  same = IsSame-trans v.same w.same;
  queue = Requeues-trans self t u t' v.queue w.queue;
}

recycle-Stays :
    (now self : ℕ) (c : TcpConnection) (t : RecyThread) (p : Poller)
    → WhenOk (λ r. Stays self c t r.0 r.1) (recycle now self c t p)
unfolding recycle push_connection
recycle-Stays now self c t p =
    WhenOk->>= (λ q. Stays self c t q.0 q.1)
      (disable_read (record c { in_recy_time_point = now }) c.channel p) _
      (disable_read-IsSame (record c { in_recy_time_point = now }) c.channel p refl)
      (λ r v. record {
        same = record {
          sequence = v.sequence;
          peer = v.peer;
          channel = v.channel;
          write_buffer = v.write_buffer;
          pool = v.pool;
        };
        queue = (self ∷ [], refl, (refl, tt));
      })

tcp_handle_read-Stays :
    (now self : ℕ) (reads : Reads) (c : TcpConnection) (t : RecyThread) (p : Poller)
    → WhenOk (λ r. Stays self c t r.0 r.1) (tcp_handle_read now self reads c t p)
unfolding tcp_handle_read
tcp_handle_read-Stays now self reads c t p =
    WhenOk->>= (λ q. Stays self c t q.0 q.1) (read_loop reads c.recv_buffer) _
      (WhenOk-vacuous (read_loop reads c.recv_buffer))
      (λ r u.
        let c' = record c { recv_buffer = r.0 } in
        let same : Stays self c t c' t = record {
          same = record {
            sequence = refl;
            peer = refl;
            channel = refl;
            write_buffer = refl;
            pool = refl;
          };
          queue = Requeues-refl self t;
        } in
        if_lem (WhenOk (λ q. Stays self c t q.0 q.1)) r.1 (λ e. same)
          (λ e.
            WhenOk->>= (λ q. Stays self c t q.0 q.1) (recycle now self c' t p) _
              (recycle-Stays now self c' t p) (λ q v. Stays-trans same v)))

-- The messages that reading puts among the tasks are for the peer that the connection has.
abbrev pub IsFor : ℕ → TcpConnection → Msg → Type 0
IsFor self c m = m.msg_head ≡ record { cur_seq = c.cur_sequence; tcp_conn = self }

pub record Serves (self : ℕ) (c : TcpConnection) (t : RecyThread) (r : Reading) : Type 0 where
  pub stays : Stays self c t r.conn r.recy
  pub tasks : All (IsFor self c) r.tasks

module _ (now self : ℕ) (c : TcpConnection) (t : RecyThread) where
  Serves-give_up :
      (r : Reading) → Serves self c t r → WhenOk (λ q. Serves self c t q.0) (give_up now self r)
  Serves-give_up r v =
      WhenOk->>= (λ q. Serves self c t q.0) (recycle now self r.conn r.recy r.poller) _
        (recycle-Stays now self r.conn r.recy r.poller)
        (λ q w. record { stays = Stays-trans v.stays w; tasks = v.tasks })

  Serves-take_report :
      (n : ℕ) (rpt : Rpt) (r : Reading)
      → Serves self c t r
      → Serves self c t (take_report false self n rpt r)
  unfolding take_report consumed_recv_buffer_size
  Serves-take_report n rpt r v = record {
    stays = Stays-trans v.stays (record {
      same = record {
        sequence = refl;
        peer = refl;
        channel = refl;
        write_buffer = refl;
        pool = refl;
      };
      queue = Requeues-refl self r.recy;
    });
    tasks =
        All-append (IsFor self c) r.tasks (_ ∷ []) v.tasks
          ((λ i. record { cur_seq = v.stays.same.sequence i; tcp_conn = self }), tt);
  }

  Serves-react :
      (r : Reading) (n : ℤ) (next : ℕ → Outcome (Reading × Ended))
      → Serves self c t r
      → ((k : ℕ) → WhenOk (λ q. Serves self c t q.0) (next k))
      → WhenOk (λ q. Serves self c t q.0) (react now self r n next)
  Serves-react r (negsuc n) next v more = Serves-give_up r v
  Serves-react r (pos zero) next v more = v
  Serves-react r (pos (suc n)) next v more = more (suc n)

  Serves-read_task :
      (fuel : ℕ) (r : Reading)
      → Serves self c t r
      → WhenOk (λ q. Serves self c t q.0) (read_task now self false fuel r)
  unfolding read_task
  Serves-read_task zero r v = v
  Serves-read_task (suc fuel) r v =
      let d = decode (get_recv_buffer_addr r.conn) (get_recv_buffer_size r.conn) in
      WhenOk->>= (λ q. Serves self c t q.0) d _ (WhenOk-vacuous d)
        (λ q u. Serves-react r q.0 _ v (λ k.
          Serves-read_task fuel (take_report false self k q.1 r) (Serves-take_report k q.1 r v)))

-- A readable connection, with no tasks before.
pub serve-Serves :
    (now self fuel : ℕ) (reads : Reads) (c : TcpConnection) (t : RecyThread) (p : Poller)
    → WhenOk
        (λ q. Serves self c t q.0)
        (serve now self false fuel reads (record { conn = c; recy = t; poller = p; tasks = [] }))
unfolding serve
serve-Serves now self fuel reads c t p =
    WhenOk->>= (λ q. Serves self c t q.0) (tcp_handle_read now self reads c t p) _
      (tcp_handle_read-Stays now self reads c t p)
      (λ q v.
        let r : Reading = record { conn = q.0; recy = q.1; poller = q.2; tasks = [] } in
        let served : Serves self c t r = record { stays = v; tasks = tt } in
        if_lem (WhenOk (λ q'. Serves self c t q'.0)) q.3
          (λ e.
            WhenOk->>= (λ q'. Serves self c t q'.0) (read_task now self false fuel r) _
              (Serves-read_task now self c t fuel r served) (λ q' w. w))
          (λ e. served))
