-- ===== src/System/Tally.antt =====
-- How many answers go to a peer: the invariant that counts, and what reading does to it.
pub mod Tasks
pub mod Passes
use tiny_network_repository.Prelude.{
  ℕ, ◌+◌, ◌≤◌, ◌≡◌, refl, ◌∙◌, ap, arith, zero, suc, length, replicate, Bool, ◌&&◌, List, [], ◌∷◌,
  ◌++◌, Option, map, if◌then◌else◌, ◌==◌, All,
}
use tiny_network_repository.Codec.{Msg, MsgHead}
use tiny_network_repository.TcpConnection.{TcpConnection}
use tiny_network_repository.App.{Reading}
use tiny_network_repository.System.{System, Who, who, Passing}
use tiny_network_repository.System.Loop.{after_read}
use tiny_network_repository.System.Known.{queued, under_way}
use tiny_network_repository.System.Reader.{IsFor}

abbrev pub same_head : MsgHead → MsgHead → Bool
same_head h k = (h.cur_seq == k.cur_seq) && (h.tcp_conn == k.tcp_conn)

-- How many of them have the head `h`.
abbrev pub tally : MsgHead → List MsgHead → ℕ
tally h [] = 0
tally h (k ∷ ks) = (if same_head h k then 1 else 0) + tally h ks

abbrev pub heads : List Msg → List MsgHead
heads ms = map (λ m. m.msg_head) ms

abbrev pub whose : List Who → List MsgHead
whose ws = map (λ w. w.head) ws

-- For one head: what was sent and what is under way is no more than what was asked.
abbrev pub IsCounted : MsgHead → System → Type 0
IsCounted h s = tally h (whose s.sent) + tally h (heads (under_way s)) ≤ tally h (whose s.asked)

module _ (h : MsgHead) where
  pub tally-heads :
      (xs ys : List Msg) → tally h (heads (xs ++ ys)) ≡ tally h (heads xs) + tally h (heads ys)
  tally-heads [] ys = omega arith
  tally-heads (x ∷ xs) ys = omega (arith, tally-heads xs ys)

  pub tally-whose :
      (xs ys : List Who) → tally h (whose (xs ++ ys)) ≡ tally h (whose xs) + tally h (whose ys)
  tally-whose [] ys = omega arith
  tally-whose (x ∷ xs) ys = omega (arith, tally-whose xs ys)

  pub tally-under_way :
      (s : System) (o : Option Passing)
      → s.pass ≡ o
      → tally h (heads (under_way s))
        ≡ tally h (heads s.tasks) + tally h (heads (queued o s.send.msg_event_queue))
  tally-under_way s o at =
      tally-heads s.tasks (queued s.pass s.send.msg_event_queue)
      ∙ ap (λ o'. tally h (heads s.tasks) + tally h (heads (queued o' s.send.msg_event_queue))) at

  -- There are no more tasks of a read than reports.
  tally-IsFor :
      (i : ℕ) (c : TcpConnection) (ms : List Msg) (n : ℕ)
      → All (IsFor i c) ms
      → length ms ≤ n
      → tally h (heads ms) ≤ tally h (whose (replicate n (who i c)))
  tally-IsFor i c [] n v few = omega arith
  tally-IsFor i c (m ∷ ms) zero v few = absurd (omega (arith, few))
  tally-IsFor i c (m ∷ ms) (suc n) (e, es) few =
      let same = ap (λ k. (if same_head h k then 1 else 0) + tally h (heads ms)) e in
      omega (arith, same, tally-IsFor i c ms n es (omega (arith, few)))

  pub after_read-IsCounted :
      (i n : ℕ) (s : System) (r : Reading)
      → All (IsFor i (s.pool.conns i)) r.tasks
      → length r.tasks ≤ n
      → IsCounted h s
      → IsCounted h (after_read i n s r)
  after_read-IsCounted i n s r v few le =
      let c = s.pool.conns i in
      omega (
        arith,
        le,
        tally-under_way s s.pass refl,
        tally-under_way (after_read i n s r) s.pass refl,
        tally-heads s.tasks r.tasks,
        tally-whose s.asked (replicate n (who i c)),
        tally-IsFor i c r.tasks n v few,
      )
