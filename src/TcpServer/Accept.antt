-- ===== src/TcpServer/Accept.antt =====
-- Which descriptors get a connection, and which one.
use mathlib.Core.Path.{subst}
use tiny_network_repository.Prelude.{
  ℕ, ◌≡◌, ◌≢◌, refl, sym, ◌∙◌, ap, arith, Bool, true, false, List, [], ◌∷◌, ◌++◌, some, map, take,
  drop, length, if◌then◌else◌, ◌&&◌, ◌==◌, Bool-cases, inl, inr, append-nil,
}
use tiny_network_repository.Prelude.Int.{ℤ}
use tiny_network_repository.Prelude.Outcome.{add64}
use tiny_network_repository.Poller.{CtlCall}
use tiny_network_repository.TcpConnection.{TcpConnection, init}
use tiny_network_repository.TcpConnectionPool.{Opening, get_one_tcp_connection, open_with, update}
use tiny_network_repository.RecyThread.Recycle.{AllNe}
use tiny_network_repository.TcpServer.{
  Accepts, accepted, refused, Accepting, handle_accept, hand_over, set_read_task,
}

-- The descriptors whose names can be had, in order.
abbrev pub named : Accepts → List Opening
named (refused e) = []
named (accepted o has_peer has_local rest) =
    if has_peer && has_local then o ∷ named rest else named rest

abbrev pub AllDistinct : List ℕ → Type 0
AllDistinct [] = Unit {0}
AllDistinct (i ∷ is) = AllNe i is × AllDistinct is

-- A connection that was given to a descriptor, since it was `before`.
pub record IsServed (task : Bool) (o : Opening) (before after : TcpConnection) : Type 0 where
  pub fd : after.fd ≡ o.fd
  pub peer : (after.peer ≡ o.peer) × (after.local ≡ o.local)
  pub owner : after.conn_pool ≡ some o.pool
  pub callback : after.read_task ≡ task
  pub sequence : after.cur_sequence ≡ add64 before.cur_sequence 1

-- The free connections serve the descriptors one for one, as far as both last.
abbrev pub Served :
    Bool → (ℕ → TcpConnection) → (ℕ → TcpConnection) → List ℕ → List Opening → Type 0
Served task before after [] os = Unit {0}
Served task before after (i ∷ is) [] = Unit {0}
Served task before after (i ∷ is) (o ∷ os) =
    IsServed task o (before i) (after i) × Served task before after is os

Served-before :
    (task : Bool) (before before' after : ℕ → TcpConnection) (i : ℕ) (free : List ℕ)
    (os : List Opening)
    → ((j : ℕ) → i ≢ j → before' j ≡ before j)
    → AllNe i free
    → Served task before' after free os
    → Served task before after free os
Served-before task before before' after i [] os same ne v = tt
Served-before task before before' after i (j ∷ rest) [] same ne v = tt
Served-before task before before' after i (j ∷ rest) (o ∷ os) same (ne, nes) (v, vs) = (
  record {
    fd = v.fd;
    peer = v.peer;
    owner = v.owner;
    callback = v.callback;
    sequence = v.sequence ∙ ap (λ c. add64 c.cur_sequence 1) (same j ne);
  },
  Served-before task before before' after i rest os same nes vs,
)

module _ (ctl_ok : CtlCall → Bool) (task : Bool) where
  -- Connection `i` is given to a descriptor; `rest` stays free.
  given : Opening → ℕ → List ℕ → Accepting → Accepting
  given o i rest a =
      let (c, p) = open_with ctl_ok o (a.pool.conns i) a.poller in
      let pool = record a.pool { free_connection_list = rest; conns = update a.pool.conns i c } in
      record a { pool = set_read_task task i pool; poller = p }

  full :
      (o : Opening) (more : Accepting → Accepting) (a : Accepting)
      → a.pool.free_connection_list ≡ []
      → hand_over task o more a (get_one_tcp_connection ctl_ok o a.pool a.poller)
        ≡ record a { closed = a.closed ++ (o.fd ∷ []) }
  unfolding get_one_tcp_connection
  full o more a e = rw e

  taken :
      (o : Opening) (more : Accepting → Accepting) (a : Accepting) (i : ℕ) (rest : List ℕ)
      → a.pool.free_connection_list ≡ i ∷ rest
      → hand_over task o more a (get_one_tcp_connection ctl_ok o a.pool a.poller)
        ≡ more (given o i rest a)
  unfolding get_one_tcp_connection given
  taken o more a i rest e = rw e

  given-IsServed :
      (o : Opening) (i : ℕ) (rest : List ℕ) (a : Accepting)
      → IsServed task o (a.pool.conns i) ((given o i rest a).pool.conns i)
  unfolding given init
  given-IsServed o i rest a =
      let test : (i == i) ≡ true = ground arith in
      rw test
        record { fd = refl; peer = (refl, refl); owner = refl; callback = refl; sequence = refl }

  given-other :
      (o : Opening) (i : ℕ) (rest : List ℕ) (a : Accepting) (j : ℕ)
      → i ≢ j
      → (given o i rest a).pool.conns j ≡ a.pool.conns j
  unfolding given
  given-other o i rest a j ne = let test : (i == j) ≡ false = ground arith in rw test

  given_free :
      (o : Opening) (i : ℕ) (rest : List ℕ) (a : Accepting)
      → (given o i rest a).pool.free_connection_list ≡ rest
  unfolding given
  given_free o i rest a = refl

  given_closed :
      (o : Opening) (i : ℕ) (rest : List ℕ) (a : Accepting) → (given o i rest a).closed ≡ a.closed
  unfolding given
  given_closed o i rest a = refl

  untouched :
      (script : Accepts) (a : Accepting) (j : ℕ) (free : List ℕ)
      → a.pool.free_connection_list ≡ free
      → AllNe j free
      → (handle_accept ctl_ok task script a).pool.conns j ≡ a.pool.conns j
  unfolding handle_accept
  untouched (refused e) a j free at ne = refl
  untouched (accepted o has_peer has_local rest) a j [] at ne =
      elim (Bool-cases (has_peer && has_local)) [
        | inr nameless ↦ rw nameless (untouched rest a j [] at ne)
        | inl both ↦ rw (both, full o (handle_accept ctl_ok task rest) a at)
      ]
  untouched (accepted o has_peer has_local rest) a j (i ∷ free) at (ne, nes) =
      elim (Bool-cases (has_peer && has_local)) [
        | inr nameless ↦ rw nameless (untouched rest a j (i ∷ free) at (ne, nes))
        | inl both ↦
            rw (both, taken o (handle_accept ctl_ok task rest) a i free at)
              (untouched rest (given o i free a) j free (given_free o i free a) nes
                ∙ given-other o i free a j (λ q. ne (sym q)))
      ]

  -- What the loop comes to, from `a` to `b`, where `os` are the descriptors with their names.
  abbrev pub Accepted : List Opening → List ℕ → Accepting → Accepting → Type 0
  Accepted os free a b =
      (b.pool.free_connection_list ≡ drop (length os) free)
      × (b.closed ≡ a.closed ++ map (λ o. o.fd) (take 1 (drop (length free) os)))
      × Served task a.pool.conns b.pool.conns free os

  Accepted-given :
      (o : Opening) (os : List Opening) (i : ℕ) (free : List ℕ) (a b : Accepting)
      → AllNe i free
      → b.pool.conns i ≡ (given o i free a).pool.conns i
      → Accepted os free (given o i free a) b
      → Accepted (o ∷ os) (i ∷ free) a b
  Accepted-given o os i free a b ne kept (left, closed, served) = (
    left,
    closed ∙ ap (λ c. c ++ excess) (given_closed o i free a),
    (
      subst (IsServed task o (a.pool.conns i)) (sym kept) (given-IsServed o i free a),
      Served-before task a.pool.conns (given o i free a).pool.conns b.pool.conns i free os
          (λ j other. given-other o i free a j other) ne served,
    ),
  )
    where
      excess : List ℤ
      excess = map (λ (o' : Opening). o'.fd) (take 1 (drop (length free) os))

  -- handleAccept, from a pool with different free connections, gives these one after another to the
  -- descriptors whose two names can be had, with their names, the pool and the read callback, and a
  -- new sequence number, as far as both last; where there are more such descriptors, the next one
  -- is closed, and no other one.
  pub handle_accept_lem :
      (script : Accepts) (a : Accepting) (free : List ℕ)
      → a.pool.free_connection_list ≡ free
      → AllDistinct free
      → Accepted (named script) free a (handle_accept ctl_ok task script a)
  unfolding handle_accept
  handle_accept_lem (refused e) a [] at ne = (at, sym (append-nil a.closed), tt)
  handle_accept_lem (refused e) a (i ∷ free) at ne = (at, sym (append-nil a.closed), tt)
  handle_accept_lem (accepted o has_peer has_local rest) a [] at ne =
      elim (Bool-cases (has_peer && has_local)) [
        | inr nameless ↦ rw nameless (handle_accept_lem rest a [] at ne)
        | inl both ↦ rw (both, full o (handle_accept ctl_ok task rest) a at) (at, refl, tt)
      ]
  handle_accept_lem (accepted o has_peer has_local rest) a (i ∷ free) at (ne, nes) =
      elim (Bool-cases (has_peer && has_local)) [
        | inr nameless ↦ rw nameless (handle_accept_lem rest a (i ∷ free) at (ne, nes))
        | inl both ↦
            let g = given o i free a in
            let at' = given_free o i free a in
            let b = handle_accept ctl_ok task rest g in
            let names : named (accepted o has_peer has_local rest) ≡ o ∷ named rest = rw both in
            let goes_on : handle_accept ctl_ok task (accepted o has_peer has_local rest) a ≡ b =
              rw both (taken o (handle_accept ctl_ok task rest) a i free at) in
            subst
              (λ os.
                Accepted os (i ∷ free) a
                  (handle_accept ctl_ok task (accepted o has_peer has_local rest) a))
              (sym names)
              (subst (Accepted (o ∷ named rest) (i ∷ free) a) (sym goes_on) (
                Accepted-given o (named rest) i free a b ne (untouched rest g i free at' ne)
                  (handle_accept_lem rest g free at' nes)))
      ]
