-- ===== src/TcpServer/Init.antt =====
-- A server from its set-up to its first connections.
use tiny_network_repository.Prelude.{
  ℕ, zero, suc, ◌+◌, ◌≡◌, ◌≤◌, ◌<◌, refl, ◌∙◌, ap, arith, Bool, true, false, not, ◌&&◌, [], some,
  map, take, drop, length, if◌then◌else◌, length-drop, drop_all,
}
use tiny_network_repository.Prelude.Outcome.{ok}
use tiny_network_repository.Poller.{Channel, CtlCall, Poller, add_channel, read_event}
use tiny_network_repository.TcpConnection.{TcpConnection}
use tiny_network_repository.TcpConnectionPool
use tiny_network_repository.TcpConnectionPool.{TcpConnectionPool, Opening, addresses, get_free_size}
use tiny_network_repository.TcpConnectionPool.Owned.{length-addresses}
use tiny_network_repository.RecyThread.Recycle.{AllNe}
use tiny_network_repository.TcpServer.{
  TcpServer, Calls, Accepts, inited, failed, make, on_read, init, is_negative, on_listen, Accepting,
  handle_accept,
}
use tiny_network_repository.TcpServer.Accept.{AllDistinct, Served, named, handle_accept_lem}

AllNe-addresses : (j i n : ℕ) → j < i → AllNe j (addresses i n)
AllNe-addresses j i zero h = tt
AllNe-addresses j i (suc n) h =
    ((λ e. absurd (omega arith)), AllNe-addresses j (i + 1) n (omega arith))

pub AllDistinct-addresses : (i n : ℕ) → AllDistinct (addresses i n)
AllDistinct-addresses i zero = tt
AllDistinct-addresses i (suc n) =
    (AllNe-addresses i (i + 1) n (omega arith), AllDistinct-addresses (i + 1) n)

abbrev pub all_ok : Calls → Bool
all_ok k =
    not (is_negative k.listen_sock)
    && (k.reuse_ok && (k.nonblocking_ok && (k.bind_ok && k.listen_ok)))

-- The channel that init makes.
pub listener : ℕ → Calls → Channel
listener next_id k = record { id = next_id + 1; fd = k.listen_sock; events = read_event }

-- Tests one after another, each of which ends with the same value, are one test.
all_tests {ℓ} :
    {X : Type ℓ} (a b c d e : Bool) (stops goes : X)
    → (if a
        then stops
        else if not b
        then stops
        else if not c
        then stops
        else if not d
        then stops
        else if not e
        then stops
        else goes)
      ≡ (if not a && (b && (c && (d && e))) then goes else stops)
all_tests true b c d e stops goes = refl
all_tests false false c d e stops goes = refl
all_tests false true false d e stops goes = refl
all_tests false true true false e stops goes = refl
all_tests false true true true false stops goes = refl
all_tests false true true true true stops goes = refl

module _ (ctl_ok : CtlCall → Bool) (memory : ℕ → TcpConnection) (at next_id base addr n : ℕ)
    (k : Calls) (p : Poller) where
  -- The server with a new pool of `n` connections, and a channel for its socket that reads.
  abbrev pub listening : TcpServer × Poller
  listening = (
    record {
      base = base;
      addr = addr;
      conn_pool = some (TcpConnectionPool.create memory n);
      conn_pool_size = n;
      listen_channel = some (at, listener next_id k);
      status = inited;
      read_task = false;
    },
    add_channel ctl_ok at (listener next_id k) p,
  )

  -- x
  pub init_lem :
      init ctl_ok memory at next_id k (make base addr n) p
      ≡ (if all_ok k then listening else (record (make base addr n) { status = failed }, p))
  unfolding init make listener
  init_lem =
      all_tests (is_negative k.listen_sock) k.reuse_ok k.nonblocking_ok k.bind_ok k.listen_ok _ _

module _ (ctl_ok : CtlCall → Bool) (memory : ℕ → TcpConnection) (at next_id base addr n : ℕ)
    (k : Calls) (p : Poller) (works : all_ok k ≡ true) (task : Bool) (script : Accepts)
    (few : length (named script) ≤ n) where
  abbrev pub started : TcpServer × Poller
  started = init ctl_ok memory at next_id k (make base addr n) p

  started-listening : started ≡ listening ctl_ok memory at next_id base addr n k p
  started-listening =
      init_lem ctl_ok memory at next_id base addr n k p
      ∙ ap
          (λ (t : Bool).
            if t
            then listening ctl_ok memory at next_id base addr n k p
            else (record (make base addr n) { status = failed }, p))
          works

  -- Where all calls of `init` succeed for a new server with room for n connections, and the script
  -- of accept4 has at most n descriptors whose two names can be had, the callback of the listening
  -- socket closes no descriptor: one connection after another is given to one of these, with its
  -- names, the pool and the read callback, and a new sequence number, and the others are free.
  pub first_connections :
      (s : TcpServer) × (q : Poller) × (pool : TcpConnectionPool) × (on_listen ctl_ok script
          (on_read task started.0)
          started.1
        ≡ ok (s, q, []))
      × (s.conn_pool ≡ some pool)
      × (get_free_size pool + length (named script) ≡ n)
      × Served task
          (TcpConnectionPool.create memory n).conns
          pool.conns
          (addresses 0 n)
          (named script)
  unfolding on_listen on_read
  first_connections =
      let fresh = TcpConnectionPool.create memory n in
      let (ready, q) = listening ctl_ok memory at next_id base addr n k p in
      let a : Accepting = record { pool = fresh; poller = q; closed = [] } in
      let b = handle_accept ctl_ok task script a in
      let (left, closed, served) =
        handle_accept_lem ctl_ok task script a (addresses 0 n)
          (unfold TcpConnectionPool.create in refl) (AllDistinct-addresses 0 n) in
      let none_closed : b.closed ≡ [] =
        closed ∙ ap (λ l. map (λ (o : Opening). o.fd) (take 1 l)) none_left in
      (
        record ready { conn_pool = some b.pool; read_task = task },
        b.poller,
        b.pool,
        ap (λ s. on_listen ctl_ok script (on_read task s.0) s.1) started-listening
            ∙ ap (λ c. ok (record ready { conn_pool = some b.pool; read_task = task }, b.poller, c))
                none_closed,
        refl,
        free_left b left,
        served,
      )
    where
      none_left : drop (length (addresses 0 n)) (named script) ≡ []
      none_left =
          drop_all (length (addresses 0 n)) (named script) (omega (arith, length-addresses 0 n))

      free_left :
          (b : Accepting)
          → b.pool.free_connection_list ≡ drop (length (named script)) (addresses 0 n)
          → get_free_size b.pool + length (named script) ≡ n
      free_left b e =
          unfold get_free_size in
          omega (
            arith,
            ap length e,
            length-drop (length (named script)) (addresses 0 n),
            length-addresses 0 n,
          )
