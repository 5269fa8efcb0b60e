-- ===== src/System/Tidy.antt =====
-- The free connections of the running server.
pub mod Sending
use mathlib.Core.Path.{subst}
use tiny_network_repository.Prelude.{
  ℕ, ◌≡◌, refl, sym, ◌∙◌, inl, inr, Bool, true, ◌&&◌, List, [], ◌∷◌, ◌++◌, Option, none, some, ltb,
  if_lem, All-append, All_left, All_right,
}
use tiny_network_repository.Prelude.Outcome.{WhenOk, WhenOk->>=, WhenDone}
use tiny_network_repository.Poller.{CtlCall, Poller}
use tiny_network_repository.TcpConnection.{reset}
use tiny_network_repository.TcpConnectionPool.{
  Opening, TcpConnectionPool, get_from, get_one_tcp_connection, open_with, put_one_tcp_connection,
  update, close, close_in,
}
use tiny_network_repository.RecyThread.Recycle.{AllNe}
use tiny_network_repository.RecyThread.Worker.{Sweep, sweep_one, seconds_in}
use tiny_network_repository.TcpServer.{
  Accepts, accepted, refused, Accepting, handle_accept, hand_over,
}
use tiny_network_repository.System.{System, Sweeping}
use tiny_network_repository.System.Sweeps.{sweep_from}
use tiny_network_repository.System.Vacant.{
  to_close, IsClosable, IsVacant, IsTidy, IsVacant-update, IsVacant-taken, IsVacant-closed,
}

module _ (ctl_ok : CtlCall → Bool) (queue : List ℕ) where
  hand_over-IsVacant :
      (o : Opening) (more : Accepting → Accepting) (a : Accepting) (free : List ℕ)
      → ((b : Accepting)
          → IsVacant b.pool.conns b.pool.free_connection_list queue
          → IsVacant (more b).pool.conns (more b).pool.free_connection_list queue)
      → a.pool.free_connection_list ≡ free
      → IsVacant a.pool.conns free queue
      → let b = hand_over true o more a (get_from ctl_ok o free a.pool a.poller) in
        IsVacant b.pool.conns b.pool.free_connection_list queue
  hand_over-IsVacant o more a [] go_on at v =
      subst (λ free. IsVacant a.pool.conns free queue) (sym at) v
  hand_over-IsVacant o more a (i ∷ free) go_on at v =
      let c = (open_with ctl_ok o (a.pool.conns i) a.poller).0 in
      let conns = update a.pool.conns i c in
      go_on _ (
        IsVacant-update {conns = conns} i (record (conns i) { read_task = true })
          (record { channel = refl; pool = refl }) (IsVacant-taken i c v))

  pub handle_accept-IsVacant :
      (script : Accepts) (a : Accepting)
      → IsVacant a.pool.conns a.pool.free_connection_list queue
      → let b = handle_accept ctl_ok true script a in
        IsVacant b.pool.conns b.pool.free_connection_list queue
  unfolding handle_accept get_one_tcp_connection
  handle_accept-IsVacant (refused e) a v = v
  handle_accept-IsVacant (accepted o has_peer has_local rest) a v =
      if_lem (λ (b : Accepting). IsVacant b.pool.conns b.pool.free_connection_list queue)
        (has_peer && has_local)
        (λ e.
          hand_over-IsVacant o (handle_accept ctl_ok true rest) a a.pool.free_connection_list
            (handle_accept-IsVacant rest) refl v)
        (λ e. handle_accept-IsVacant rest a v)

-- A part of a sweep: the connection of the queue is kept, or closed.
close_in-IsVacant :
    (pool : Option ℕ) (i : ℕ) (s : TcpConnectionPool) (p : Poller) (rest : List ℕ)
    → (s.conns i).conn_pool ≡ pool
    → IsVacant s.conns s.free_connection_list (i ∷ rest)
    → WhenOk (λ r. IsVacant r.0.conns r.0.free_connection_list rest) (close_in pool i s p)
unfolding put_one_tcp_connection reset
close_in-IsVacant none i s p rest at v = tt
close_in-IsVacant (some o) i s p rest at v =
    let apart : AllNe i s.free_connection_list = elim v.waiting.0 [
      | inl ne ↦ ne
      | inr homeless ↦ absurd (let no : some o ≡ none = sym at ∙ homeless in cc)
    ] in
    IsVacant-closed i (reset (s.conns i) p).0 apart refl refl
      (record { closed = v.closed; once = v.once; waiting = v.waiting.1 })

sweep_one-IsVacant :
    (now i : ℕ) (rest : List ℕ) (w : Sweep)
    → IsVacant w.pool.conns w.pool.free_connection_list (i ∷ (rest ++ w.kept))
    → WhenOk
        (λ w'. IsVacant w'.pool.conns w'.pool.free_connection_list (rest ++ w'.kept))
        (sweep_one now i w)
unfolding sweep_one close
sweep_one-IsVacant now i rest w v =
    let Q : Sweep → Type 0 =
      λ w'. IsVacant w'.pool.conns w'.pool.free_connection_list (rest ++ w'.kept) in
    let P = IsClosable w.pool.conns w.pool.free_connection_list in
    if_lem (WhenOk Q) (ltb (seconds_in now (w.pool.conns i)) 10)
      (λ e. record {
        closed = v.closed;
        once = v.once;
        waiting =
            All-append P rest (w.kept ++ (i ∷ [])) (All_left P rest w.kept v.waiting.1) (
              All-append P w.kept (i ∷ []) (All_right P rest w.kept v.waiting.1) (v.waiting.0, tt));
      })
      (λ e.
        WhenOk->>= Q (close i w.pool w.poller) _
          (close_in-IsVacant (w.pool.conns i).conn_pool i w.pool w.poller (rest ++ w.kept) refl v)
          (λ r u. u))

pub sweep_from-IsTidy :
    (now : ℕ) (s : System) (v : Sweeping) (left : List ℕ)
    → s.sweep ≡ some v
    → v.left ≡ left
    → IsTidy s
    → WhenDone IsTidy (sweep_from now left v s)
sweep_from-IsTidy now s v [] at here t = tt
sweep_from-IsTidy now s v (i ∷ rest) at here t =
    let V : List ℕ → Type 0 = IsVacant s.pool.conns s.pool.free_connection_list in
    let all : V (v.left ++ v.sweep.kept) = subst (λ o. V (to_close o s.recy.event_queue)) at t in
    let first : V (i ∷ (rest ++ v.sweep.kept)) = subst (λ l. V (l ++ v.sweep.kept)) here all in
    let w : Sweep = record v.sweep { pool = s.pool; poller = s.poller } in
    WhenOk->>= IsTidy (sweep_one now i w) _ (sweep_one-IsVacant now i rest w first) (λ w' u. u)
