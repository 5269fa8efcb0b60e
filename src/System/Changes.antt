-- ===== src/System/Changes.antt =====
-- What each part of a thread does to the invariant of the connections.
use mathlib.Core.Path.{subst}
use mathlib.Core.List.{Mem}
use tiny_network_repository.Prelude.{
  ℕ, suc, ◌+◌, ◌^◌, ◌≤◌, ◌<◌, ◌≡◌, refl, sym, arith, ◌⊎◌, inl, inr, Bool, true, false, ◌&&◌, List,
  [], ◌∷◌, ◌++◌, Option, none, some, length, if◌then◌else◌, ◌==◌, ltb, if_lem, Bool-cases, All,
}
use tiny_network_repository.Prelude.Outcome.{
  Outcome, ok, err, WhenOk, WhenOk->>=, WhenDone, WhenDone-map,
}
use tiny_network_repository.Buffer.{Buffer, clear, size}
use tiny_network_repository.Codec.{Msg, encode}
use tiny_network_repository.Poller.{CtlCall, Poller}
use tiny_network_repository.TcpConnection.{TcpConnection, init, reset}
use tiny_network_repository.TcpConnection.Output.{WriteResult, Reply, send, minus_one}
use tiny_network_repository.TcpConnectionPool.{
  Opening, TcpConnectionPool, get_from, get_one_tcp_connection, put_one_tcp_connection, open_with,
  update, close, close_in,
}
use tiny_network_repository.RecyThread.Worker.{Sweep, sweep_one, seconds_in}
use tiny_network_repository.SendThread.{
  Sending, send_one, send_encoded, after_send, erase_msg, keep_msg,
}
use tiny_network_repository.SendThread.Pass.{is_current}
use tiny_network_repository.TcpServer.{
  Accepts, accepted, refused, Accepting, handle_accept, hand_over,
}
use tiny_network_repository.TcpServer.Accept.{named}
use tiny_network_repository.System.{Who, who}
use tiny_network_repository.System.Passes.{replied, is_taken, receipt}
use tiny_network_repository.System.Known.{
  IsKnown, IsSafe, Renews, IsSafe-update, IsSafe-renewed, IsSafe-le,
}
use tiny_network_repository.System.Writer.{SamePeer, send-SamePeer}

init-Renews :
    (ctl_ok : CtlCall → Bool) (o : Opening) (c : TcpConnection) (p : Poller)
    → Renews c (open_with ctl_ok o c p).0
unfolding init clear size
init-Renews ctl_ok o c p = record {
  sequence = refl;
  empty = λ h. let left : 0 < size (clear c.write_buffer) = h.1 in absurd (omega arith);
}

reset-Renews : (c : TcpConnection) (p : Poller) → Renews c (reset c p).0
unfolding reset
reset-Renews c p = record { sequence = refl; empty = λ h. cc }

module _ (ctl_ok : CtlCall → Bool) (asked : List Who) (pending : List Msg) where
  -- One descriptor with its names, whether a connection is free or not.
  hand_over-IsSafe :
      (n k : ℕ) (o : Opening) (more : Accepting → Accepting) (a : Accepting) (free : List ℕ)
      → n + 1 ≤ k
      → k < 2 ^ 64
      → ((b : Accepting)
          → IsSafe (n + 1) asked pending b.pool.conns
          → IsSafe k asked pending (more b).pool.conns)
      → IsSafe n asked pending a.pool.conns
      → IsSafe k asked pending
          (hand_over true o more a (get_from ctl_ok o free a.pool a.poller)).pool.conns
  hand_over-IsSafe n k o more a [] le lt go_on v = IsSafe-le (omega arith) v
  hand_over-IsSafe n k o more a (i ∷ free) le lt go_on v =
      let c = (open_with ctl_ok o (a.pool.conns i) a.poller).0 in
      let conns = update a.pool.conns i c in
      go_on _ (
        IsSafe-update {conns = conns} i (record (conns i) { read_task = true })
          (record { sequence = refl; peer = refl; holds = λ h. inl h })
          (IsSafe-renewed i c (omega arith) (init-Renews ctl_ok o (a.pool.conns i) a.poller) v))

  -- A call of handleAccept opens a connection for each named descriptor at most.
  pub handle_accept-IsSafe :
      (script : Accepts) (n : ℕ) (a : Accepting)
      → n + length (named script) < 2 ^ 64
      → IsSafe n asked pending a.pool.conns
      → IsSafe
          (n + length (named script))
          asked
          pending
          (handle_accept ctl_ok true script a).pool.conns
  unfolding handle_accept get_one_tcp_connection
  handle_accept-IsSafe (refused e) n a few v = IsSafe-le (omega arith) v
  handle_accept-IsSafe (accepted o has_peer has_local rest) n a few v =
      let names : (b : Bool)
          → has_peer && has_local ≡ b
          → length (named (accepted o has_peer has_local rest))
            ≡ length (if b then o ∷ named rest else named rest) =
        λ b e. rw e refl in
      elim (Bool-cases (has_peer && has_local)) [
        | inr nameless ↦
            rw nameless (handle_accept-IsSafe rest n a (omega (arith, names false nameless, few)) v)
        | inl both ↦
            let few' : n + suc (length (named rest)) < 2 ^ 64 =
              omega (arith, names true both, few) in
            rw both (
              hand_over-IsSafe n (n + suc (length (named rest))) o (handle_accept ctl_ok true rest)
                a a.pool.free_connection_list (omega arith) few'
                (λ b w.
                  IsSafe-le (omega arith) (handle_accept-IsSafe rest (n + 1) b (omega arith) w))
                v)
      ]

-- One connection of the queue of the recycling thread.
close_in-IsSafe :
    (asked : List Who) (pending : List Msg) (n : ℕ) (pool : Option ℕ) (i : ℕ)
    (s : TcpConnectionPool) (p : Poller)
    → n + 1 < 2 ^ 64
    → IsSafe n asked pending s.conns
    → WhenOk (λ r. IsSafe (n + 1) asked pending r.0.conns) (close_in pool i s p)
unfolding put_one_tcp_connection
close_in-IsSafe asked pending n none i s p few v = tt
close_in-IsSafe asked pending n (some o) i s p few v =
    IsSafe-renewed i (reset (s.conns i) p).0 few (reset-Renews (s.conns i) p) v

-- A sweep closes one connection at most with each part.
pub sweep_one-IsSafe :
    (asked : List Who) (pending : List Msg) (n now i : ℕ) (w : Sweep)
    → n + 1 < 2 ^ 64
    → IsSafe n asked pending w.pool.conns
    → WhenOk (λ w'. IsSafe (n + 1) asked pending w'.pool.conns) (sweep_one now i w)
unfolding sweep_one close
sweep_one-IsSafe asked pending n now i w few v =
    if_lem (WhenOk (λ w'. IsSafe (n + 1) asked pending w'.pool.conns))
      (ltb (seconds_in now (w.pool.conns i)) 10) (λ e. IsSafe-le (omega arith) v)
      (λ e.
        WhenOk->>= (λ w'. IsSafe (n + 1) asked pending w'.pool.conns) (close i w.pool w.poller) _
          (close_in-IsSafe asked pending n (w.pool.conns i).conn_pool i w.pool w.poller few v)
          (λ r u. u))

-- What the sending thread does with a message of the queue: kept, or not; and for whom it was sent.
pub record IsOneSent (n : ℕ) (script : List WriteResult) (asked : List Who) (pending : List Msg)
    (m : Msg) (w w' : Sending) : Type 0 where
  pub safe : IsSafe n asked pending w'.conns
  pub askers : All (λ x. Mem x asked) (receipt script m w w')
  pub kept : (w'.kept ≡ w.kept) ⊎ ((w'.kept ≡ w.kept ++ (m ∷ [])) × (w'.erased ≡ w.erased))

receipt-asked :
    {asked : List Who} (script : List WriteResult) (m : Msg) (w w' : Sending)
    → is_current w.conns m ≡ true
    → IsKnown asked w.conns m
    → All (λ x. Mem x asked) (receipt script m w w')
receipt-asked {asked} script m w w' e v =
    let c = w.conns m.msg_head.tcp_conn in
    let same : c.peer ≡ v.peer = v.same (ground arith) in
    if_lem (All (λ x. Mem x asked)) (length w'.wire == length w.wire) (λ f. tt)
      (λ f.
        if_lem (All (λ x. Mem x asked)) (is_taken (replied script m w (encode m.rpt)))
          (λ g. (
            subst (λ p. Mem (record { head = m.msg_head; peer = p }) asked) (sym same) v.asker,
            tt,
          ))
          (λ g. tt))

-- A message that is only erased was for nobody.
receipt-erased :
    (script : List WriteResult) (asked : List Who) (m : Msg) (w : Sending)
    → All (λ x. Mem x asked) (receipt script m w (erase_msg w))
receipt-erased script asked m w =
    if_lem (All (λ x. Mem x asked)) (length w.wire == length w.wire) (λ f. tt)
      (λ f. absurd (ground arith))

module _ {n : ℕ} {asked : List Who} {pending : List Msg} (m : Msg) (w : Sending) where
  after_send-IsOneSent :
      (script : List WriteResult) (r : Reply)
      → is_current w.conns m ≡ true
      → IsSafe n asked pending w.conns
      → IsKnown asked w.conns m
      → SamePeer (w.conns m.msg_head.tcp_conn) r.conn
      → IsOneSent n script asked pending m w (after_send m w r)
  after_send-IsOneSent script r e v known same =
      let i = m.msg_head.tcp_conn in
      let peer : (w.conns i).peer ≡ known.peer = known.same (ground arith) in
      let now : (w.conns i).cur_sequence ≡ m.msg_head.cur_seq = ground arith in
      let asker : Mem (who i (w.conns i)) asked =
        subst (λ x. Mem x asked)
          (λ t. record { head = record { cur_seq = sym now t; tcp_conn = i }; peer = sym peer t })
          known.asker in
      let u : IsSafe n asked pending (update w.conns i r.conn) =
        IsSafe-update i r.conn
          (record { sequence = same.sequence; peer = same.peer; holds = λ h. inr asker }) v in
      let s : Sending = record w {
        conns = update w.conns i r.conn;
        poller = r.poller;
        wire = w.wire ++ ((i, r.wire) ∷ []);
      } in
      if_lem (IsOneSent n script asked pending m w) (r.result == minus_one)
        (λ f. record {
          safe = u;
          askers = receipt-asked script m w (keep_msg m s) e known;
          kept = inr (refl, refl);
        })
        (λ f. record {
          safe = u;
          askers = receipt-asked script m w (erase_msg s) e known;
          kept = inl refl;
        })

  -- The body of the loop over the queue.
  pub send_one-IsOneSent :
      (script : List WriteResult)
      → IsSafe n asked pending w.conns
      → IsKnown asked w.conns m
      → WhenDone (IsOneSent n script asked pending m w) (send_one script m w)
  unfolding send_one
  send_one-IsOneSent script v known =
      if_lem (WhenDone (IsOneSent n script asked pending m w)) (is_current w.conns m)
        (λ e. encoded script e v known (encode m.rpt))
        (λ e. record { safe = v; askers = receipt-erased script asked m w; kept = inl refl })
    where
      encoded :
          (script : List WriteResult)
          → is_current w.conns m ≡ true
          → IsSafe n asked pending w.conns
          → IsKnown asked w.conns m
          → (o : Outcome Buffer)
          → WhenDone (IsOneSent n script asked pending m w) (send_encoded script m w o)
      encoded script e v known (err x) = tt
      encoded script e v known (ok b) =
          let c = w.conns m.msg_head.tcp_conn in
          WhenDone-map (IsOneSent n script asked pending m w) (send script b c w.poller) _
            (send-SamePeer script b c w.poller)
            (λ r same. after_send-IsOneSent script r e v known same)
