-- ===== src/RecyThread/Recycle.antt =====
-- What a turn of the recycling thread does to its queue and to the pool.
use tiny_network_repository.Prelude.{
  ℕ, ◌+◌, ◌-◌, ◌/◌, ◌<◌, ◌≡◌, ◌≢◌, refl, sym, ◌∙◌, ap, arith, Bool, true, false, List, [], ◌∷◌,
  ◌++◌, none, some, length, if◌then◌else◌, ltb, ◌==◌, append_assoc, append-nil, Bool-cases, inl,
  inr,
}
use tiny_network_repository.Prelude.Outcome.{ok, err, null_pointer}
use tiny_network_repository.Poller.{Poller}
use tiny_network_repository.TcpConnection.{TcpConnection, reset}
use tiny_network_repository.TcpConnectionPool.{
  TcpConnectionPool, close, update, put_one_tcp_connection,
}
use tiny_network_repository.TcpConnectionPool.Close.{put_lem, update_self}
use tiny_network_repository.RecyThread.Worker.{
  Sweep, sweep, sweep_one, seconds_in, State, again, turn, sweep_queue, woken, keep, no_sweep,
}

-- The connections of the queue that have waited less than ten seconds when they are looked at, and
-- the others.
module _ (conns : ℕ → TcpConnection) (clock : ℕ → ℕ) where
  abbrev pub is_young : ℕ → ℕ → Bool
  is_young k c = ltb (seconds_in (clock k) (conns c)) 10

  abbrev pub young : ℕ → List ℕ → List ℕ
  young k [] = []
  young k (c ∷ cs) = if is_young k c then c ∷ young (k + 1) cs else young (k + 1) cs

  abbrev pub old : ℕ → List ℕ → List ℕ
  old k [] = []
  old k (c ∷ cs) = if is_young k c then old (k + 1) cs else c ∷ old (k + 1) cs

abbrev pub AllNe : ℕ → List ℕ → Type 0
AllNe c [] = Unit {0}
AllNe c (d ∷ ds) = (c ≢ d) × AllNe c ds

-- Every connection of the queue belongs to a pool, and stands there once.
abbrev pub Closable : (ℕ → TcpConnection) → List ℕ → Type 0
Closable conns [] = Unit {0}
Closable conns (c ∷ cs) =
    ((pool : ℕ) × ((conns c).conn_pool ≡ some pool)) × AllNe c cs × Closable conns cs

update-other :
    (conns : ℕ → TcpConnection) (i j : ℕ) (c : TcpConnection) → i ≢ j → update conns i c j ≡ conns j
update-other conns i j c ne = let test : (i == j) ≡ false = ground arith in rw test

Closable-update :
    (conns : ℕ → TcpConnection) (i : ℕ) (d : TcpConnection) (cs : List ℕ)
    → AllNe i cs
    → Closable conns cs
    → Closable (update conns i d) cs
Closable-update conns i d [] ne h = tt
Closable-update conns i d (c ∷ cs) ne ((pool, e), once, rest) = (
  (pool, ap (λ x. x.conn_pool) (update-other conns i c d ne.0) ∙ e),
  once,
  Closable-update conns i d cs ne.1 rest,
)

young-update :
    (conns : ℕ → TcpConnection) (clock : ℕ → ℕ) (i : ℕ) (d : TcpConnection) (k : ℕ) (cs : List ℕ)
    → AllNe i cs
    → (young (update conns i d) clock k cs ≡ young conns clock k cs)
      × (old (update conns i d) clock k cs ≡ old conns clock k cs)
young-update conns clock i d k [] ne = (refl, refl)
young-update conns clock i d k (c ∷ cs) ne =
    let (y, o) = young-update conns clock i d (k + 1) cs ne.1 in
    rw (update-other conns i c d ne.0, y, o) (refl, refl)

abbrev returned : ℕ → Sweep → Sweep
returned c s =
    let (pool, poller, fd) = put_one_tcp_connection (some c) s.pool s.poller in
    record s { pool = pool; poller = poller; closed = s.closed ++ (fd ∷ []) }

one_young :
    (now c : ℕ) (s : Sweep)
    → ltb (seconds_in now (s.pool.conns c)) 10 ≡ true
    → sweep_one now c s ≡ ok (keep c s)
unfolding sweep_one
one_young now c s y = rw y

one_old :
    (now c pool : ℕ) (s : Sweep)
    → ltb (seconds_in now (s.pool.conns c)) 10 ≡ false
    → (s.pool.conns c).conn_pool ≡ some pool
    → sweep_one now c s ≡ ok (returned c s)
unfolding sweep_one close
one_old now c pool s o here = rw (o, here)

-- What a sweep over `cs` comes to.
abbrev pub Swept : (ℕ → ℕ) → ℕ → List ℕ → Sweep → Sweep → Type 0
Swept clock k cs s s' =
    (sweep clock k cs s ≡ ok s')
    × (s'.kept ≡ s.kept ++ young s.pool.conns clock k cs)
    × (s'.posted ≡ s.posted + length (young s.pool.conns clock k cs))
    × (s'.pool.free_connection_list ≡ s.pool.free_connection_list ++ old s.pool.conns clock k cs)

Swept-young :
    (clock : ℕ → ℕ) (k c : ℕ) (cs : List ℕ) (s s' : Sweep)
    → is_young s.pool.conns clock k c ≡ true
    → Swept clock (k + 1) cs (keep c s) s'
    → Swept clock k (c ∷ cs) s s'
unfolding sweep
Swept-young clock k c cs s s' y (e, kept, posted, free) =
    rw (one_young (clock k) c s y, y)
      (e, kept ∙ append_assoc s.kept (c ∷ []) _, omega (arith, posted), free)

Swept-old :
    (clock : ℕ → ℕ) (k c pool : ℕ) (cs : List ℕ) (s s' : Sweep)
    → is_young s.pool.conns clock k c ≡ false
    → (s.pool.conns c).conn_pool ≡ some pool
    → AllNe c cs
    → Swept clock (k + 1) cs (returned c s) s'
    → Swept clock k (c ∷ cs) s s'
unfolding sweep put_one_tcp_connection
Swept-old clock k c pool cs s s' o here once (e, kept, posted, free) =
    let (y, l) =
      young-update s.pool.conns clock c (reset (s.pool.conns c) s.poller).0 (k + 1) cs once in
    rw (one_old (clock k) c pool s o here, o)
      (
        e,
        kept ∙ ap (◌++◌ s.kept) y,
        posted ∙ ap (λ l. s.posted + length l) y,
        free
            ∙ append_assoc s.pool.free_connection_list (c ∷ []) _
            ∙ ap (λ l. s.pool.free_connection_list ++ (c ∷ l)) l,
      )

-- A sweep keeps the young connections in their order, with one post of the semaphore for each, and
-- closes the others into the pool, in their order, where each of the queue belongs to a pool and is
-- in the queue once.
pub sweep_lem :
    (clock : ℕ → ℕ) (k : ℕ) (cs : List ℕ) (s : Sweep)
    → Closable s.pool.conns cs
    → (s' : Sweep) × Swept clock k cs s s'
unfolding sweep put_one_tcp_connection
sweep_lem clock k [] s h = (s, (refl, sym (append-nil _), omega arith, sym (append-nil _)))
sweep_lem clock k (c ∷ cs) s ((pool, here), once, rest) =
    elim (Bool-cases (is_young s.pool.conns clock k c)) [
      | inl y ↦
          let (s', w) = sweep_lem clock (k + 1) cs (keep c s) rest in
          (s', Swept-young clock k c cs s s' y w)
      | inr o ↦
          let d = (reset (s.pool.conns c) s.poller).0 in
          let (s', w) =
            sweep_lem clock (k + 1) cs (returned c s)
              (Closable-update s.pool.conns c d cs once rest) in
          (s', Swept-old clock k c pool cs s s' o here once w)
    ]

one_homeless :
    (now c : ℕ) (s : Sweep)
    → ltb (seconds_in now (s.pool.conns c)) 10 ≡ false
    → (s.pool.conns c).conn_pool ≡ none
    → sweep_one now c s ≡ err null_pointer
unfolding sweep_one close
one_homeless now c s o gone = rw (o, gone)

put-in_recy_time :
    (c : ℕ) (s : TcpConnectionPool) (p : Poller)
    → ((put_one_tcp_connection (some c) s p).0.conns c).in_recy_time_point
      ≡ (s.conns c).in_recy_time_point
unfolding put_one_tcp_connection reset
put-in_recy_time c s p =
    ap (λ d. d.in_recy_time_point) (update_self s.conns c (reset (s.conns c) p).0)

-- Where the queue begins with the same connection twice, which belongs to a pool and is old enough
-- at both entries, the sweep closes it twice and goes through a null pointer.
pub sweep_twice :
    (clock : ℕ → ℕ) (k c pool : ℕ) (cs : List ℕ) (s : Sweep)
    → (s.pool.conns c).conn_pool ≡ some pool
    → is_young s.pool.conns clock k c ≡ false
    → is_young s.pool.conns clock (k + 1) c ≡ false
    → sweep clock k (c ∷ c ∷ cs) s ≡ err null_pointer
unfolding sweep
sweep_twice clock k c pool cs s here o o' = rw (
  one_old (clock k) c pool s o here,
  one_homeless (clock (k + 1)) c (returned c s) still_old (put_lem c s.pool s.poller).1,
)
  where
    still_old : ltb (seconds_in (clock (k + 1)) ((returned c s).pool.conns c)) 10 ≡ false
    still_old =
        ap (λ t. ltb ((clock (k + 1) - t) / 1000000000) 10) (put-in_recy_time c s.pool s.poller)
        ∙ o'

-- In a turn of the running recycling thread with a signal and a positive counter, where each
-- connection of the queue belongs to a pool and is in the queue once: the queue afterwards holds
-- the connections younger than ten seconds, one signal was taken and one given back for each of
-- these, the old ones are free, and the counter of the queue is what it was.
pub turn_lem :
    (clock : ℕ → ℕ) (s : State)
    → s.thread.stop ≡ false
    → 0 < s.thread.sem_event_queue
    → 0 < s.thread.event_queue_size
    → Closable s.pool.conns s.thread.event_queue
    → (s' : State) × (turn clock true woken false s ≡ ok (again, s'))
      × (s'.thread.event_queue ≡ young s.pool.conns clock 0 s.thread.event_queue)
      × (s'.thread.sem_event_queue + 1 ≡ s.thread.sem_event_queue + length s'.thread.event_queue)
      × (s'.pool.free_connection_list
          ≡ s.pool.free_connection_list ++ old s.pool.conns clock 0 s.thread.event_queue)
      × (s'.thread.event_queue_size ≡ s.thread.event_queue_size)
unfolding turn sweep_queue
turn_lem clock s runs signal waits h =
    let (w, (e, kept, posted, free)) = sweep_lem clock 0 s.thread.event_queue (no_sweep s) h in
    let test : ltb 0 s.thread.sem_event_queue ≡ true = ground arith in
    let test' : ltb 0 s.thread.event_queue_size ≡ true = ground arith in
    (
      record {
        thread = record s.thread {
          event_queue = w.kept;
          sem_event_queue = s.thread.sem_event_queue - 1 + w.posted;
        };
        pool = w.pool;
        poller = w.poller;
      },
      rw (runs, test, test', e),
      kept,
      omega (arith, posted, ap length kept),
      free,
      refl,
    )
