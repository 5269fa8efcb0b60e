-- ===== src/System/Known.antt =====
-- The invariant of the server: for whom each message that is under way was read, and what a change of
-- one connection does to it.
use mathlib.Core.Path.{subst}
use mathlib.Core.List.{Mem, mem-append_left}
use native.Mathlib.Decide.{ℕ_discrete}
use tiny_network_repository.Prelude.{
  ℕ, ◌+◌, ◌^◌, ◌≤◌, ◌<◌, ◌≡◌, refl, sym, ◌∙◌, arith, ◌⊎◌, inl, inr, true, false, All, All_mono,
  All_left, All_right, List, ◌++◌, Option, none, some, ◌==◌,
}
use tiny_network_repository.Prelude.Outcome.{add64}
use tiny_network_repository.Buffer.{size}
use tiny_network_repository.Codec.{Msg}
use tiny_network_repository.TcpConnection.{TcpConnection}
use tiny_network_repository.TcpConnection.Output.{has_channel}
use tiny_network_repository.TcpConnectionPool.{update}
use tiny_network_repository.System.{Who, who, System, Passing}

-- The messages under way: tasks, and answers in the queue or in the pass that is going on.
abbrev pub queued : Option Passing → List Msg → List Msg
queued none queue = queue
queued (some p) queue = p.left ++ p.sending.kept

abbrev pub under_way : System → List Msg
under_way s = s.tasks ++ queued s.pass s.send.msg_event_queue

-- What holds of all that is under way holds of the tasks, and of the queue or the pass.
pub All-tasks : (P : Msg → Type 0) (s : System) → All P (under_way s) → All P s.tasks
All-tasks P s h = All_left P s.tasks (queued s.pass s.send.msg_event_queue) h

pub All-queued :
    (P : Msg → Type 0) (s : System) (o : Option Passing)
    → s.pass ≡ o
    → All P (under_way s)
    → All P (queued o s.send.msg_event_queue)
All-queued P s o at h =
    subst (λ o'. All P (queued o' s.send.msg_event_queue)) at
      (All_right P s.tasks (queued s.pass s.send.msg_event_queue) h)

-- The connection may send what it keeps in its write buffer.
abbrev pub Holds : TcpConnection → Type 0
Holds c = (has_channel c ≡ true) × (0 < size c.write_buffer)

-- A peer asked with the head of the message, and has the connection still if the number is the same.
pub record IsKnown (asked : List Who) (conns : ℕ → TcpConnection) (m : Msg) : Type 0 where
  pub peer : ℕ
  pub asker : Mem (record { head = m.msg_head; peer = peer }) asked
  pub past : m.msg_head.cur_seq ≤ (conns m.msg_head.tcp_conn).cur_sequence
  pub same :
      (conns m.msg_head.tcp_conn).cur_sequence ≡ m.msg_head.cur_seq
      → (conns m.msg_head.tcp_conn).peer ≡ peer

-- After at most `n` openings and ends of connections.
pub record IsSafe (n : ℕ) (asked : List Who) (pending : List Msg) (conns : ℕ → TcpConnection)
    : Type 0 where
  pub bound : (i : ℕ) → (conns i).cur_sequence ≤ n
  pub known : All (IsKnown asked conns) pending
  pub held : (i : ℕ) → Holds (conns i) → Mem (who i (conns i)) asked

-- The connection keeps its peer; and it has for sending what it had, or what its peer asked for.
pub record Keeps (asked : List Who) (i : ℕ) (c c' : TcpConnection) : Type 0 where
  pub sequence : c'.cur_sequence ≡ c.cur_sequence
  pub peer : c'.peer ≡ c.peer
  pub holds : Holds c' → Holds c ⊎ Mem (who i c) asked

-- The connection is opened, or ends.
pub record Renews (c c' : TcpConnection) : Type 0 where
  pub sequence : c'.cur_sequence ≡ add64 c.cur_sequence 1
  pub empty : Holds c' → ⊥

pub Keeps-refl : (asked : List Who) (i : ℕ) (c : TcpConnection) → Keeps asked i c c
Keeps-refl asked i c = record { sequence = refl; peer = refl; holds = λ h. inl h }

-- What holds of one connection's change, and of no change, holds at each after an update.
pub at_update {κ} :
    (P : ℕ → TcpConnection → Type κ) (conns : ℕ → TcpConnection) (i : ℕ) (c : TcpConnection)
    → P i c
    → ((j : ℕ) → P j (conns j))
    → (j : ℕ) → P j (update conns i c j)
at_update P conns i c here others j = elim (ℕ_discrete i j) [
  | yes e ↦ let test : (i == j) ≡ true = ground arith in rw test (subst (λ k. P k c) e here)
  | no e ↦ let test : (i == j) ≡ false = ground arith in rw test (others j)
]

Mem-who :
    {asked : List Who} {i : ℕ} {c c' : TcpConnection}
    → Keeps asked i c c'
    → Mem (who i c) asked
    → Mem (who i c') asked
Mem-who {asked} {i} k m =
    subst (λ w. Mem w asked)
      (λ t. record {
        head = record { cur_seq = sym k.sequence t; tcp_conn = i };
        peer = sym k.peer t;
      })
      m

module _ {asked : List Who} {conns conns' : ℕ → TcpConnection} where
  IsKnown-Keeps :
      (m : Msg)
      → Keeps asked m.msg_head.tcp_conn (conns m.msg_head.tcp_conn) (conns' m.msg_head.tcp_conn)
      → IsKnown asked conns m
      → IsKnown asked conns' m
  IsKnown-Keeps m k v = record {
    peer = v.peer;
    asker = v.asker;
    past = omega (arith, k.sequence, v.past);
    same = λ e. k.peer ∙ v.same (sym k.sequence ∙ e);
  }

  pub IsSafe-Keeps :
      {n : ℕ} {pending : List Msg}
      → ((i : ℕ) → Keeps asked i (conns i) (conns' i))
      → IsSafe n asked pending conns
      → IsSafe n asked pending conns'
  IsSafe-Keeps {pending = pending} keeps v = record {
    bound = λ i. omega (arith, v.bound i, (keeps i).sequence);
    known = All_mono pending (λ m. IsKnown-Keeps m (keeps m.msg_head.tcp_conn)) v.known;
    held =
        λ i h. Mem-who (keeps i) (elim ((keeps i).holds h) [ inl old ↦ v.held i old | inr m ↦ m ]);
  }

  IsKnown-Renews :
      {n : ℕ} (m : Msg)
      → n + 1 < 2 ^ 64
      → (conns m.msg_head.tcp_conn).cur_sequence ≤ n
      → Renews (conns m.msg_head.tcp_conn) (conns' m.msg_head.tcp_conn)
      → IsKnown asked conns m
      → IsKnown asked conns' m
  IsKnown-Renews m few b r v = record {
    peer = v.peer;
    asker = v.asker;
    past = omega (arith, r.sequence, v.past, b, few);
    same = λ e. absurd (omega (arith, r.sequence, v.past, b, few, e));
  }

  -- One more opening or end, of any connections.
  pub IsSafe-Renews :
      {n : ℕ} {pending : List Msg}
      → n + 1 < 2 ^ 64
      → ((i : ℕ) → Keeps asked i (conns i) (conns' i) ⊎ Renews (conns i) (conns' i))
      → IsSafe n asked pending conns
      → IsSafe (n + 1) asked pending conns'
  IsSafe-Renews {n} {pending} few changes v = record {
    bound = λ i.
        let b = v.bound i in
        elim (changes i) [
          | inl k ↦ omega (arith, k.sequence, b)
          | inr r ↦ omega (arith, r.sequence, b, few)
        ];
    known =
        All_mono pending
          (λ m known. elim (changes m.msg_head.tcp_conn) [
            | inl k ↦ IsKnown-Keeps m k known
            | inr r ↦ IsKnown-Renews m few (v.bound m.msg_head.tcp_conn) r known
          ])
          v.known;
    held = λ i h. elim (changes i) [
      | inl k ↦ Mem-who k (elim (k.holds h) [ inl old ↦ v.held i old | inr m ↦ m ])
      | inr r ↦ absurd (r.empty h)
    ];
  }

IsKnown-asked :
    {asked : List Who} {conns : ℕ → TcpConnection} (more : List Who) (m : Msg)
    → IsKnown asked conns m
    → IsKnown (asked ++ more) conns m
IsKnown-asked more m v = record {
  peer = v.peer;
  asker = mem-append_left more v.asker;
  past = v.past;
  same = v.same;
}

module _ {asked : List Who} {n : ℕ} {pending : List Msg} {conns : ℕ → TcpConnection} where
  pub IsSafe-update :
      (i : ℕ) (c : TcpConnection)
      → Keeps asked i (conns i) c
      → IsSafe n asked pending conns
      → IsSafe n asked pending (update conns i c)
  IsSafe-update i c k = IsSafe-Keeps λ j.
      at_update (λ j c'. Keeps asked j (conns j) c') conns i c k (λ j. Keeps-refl asked j (conns j))
        j

  pub IsSafe-renewed :
      (i : ℕ) (c : TcpConnection)
      → n + 1 < 2 ^ 64
      → Renews (conns i) c
      → IsSafe n asked pending conns
      → IsSafe (n + 1) asked pending (update conns i c)
  IsSafe-renewed i c few r = IsSafe-Renews few λ j.
      at_update (λ j c'. Keeps asked j (conns j) c' ⊎ Renews (conns j) c') conns i c (inr r)
        (λ j. inl (Keeps-refl asked j (conns j))) j

  -- More was asked.
  pub IsSafe-asked :
      (more : List Who) → IsSafe n asked pending conns → IsSafe n (asked ++ more) pending conns
  IsSafe-asked more v = record {
    bound = v.bound;
    known = All_mono pending (IsKnown-asked more) v.known;
    held = λ i h. mem-append_left more (v.held i h);
  }

  -- Other messages are under way, each of which is known.
  pub IsSafe-pending :
      (others : List Msg)
      → All (IsKnown asked conns) others
      → IsSafe n asked pending conns
      → IsSafe n asked others conns
  IsSafe-pending others h v = record { bound = v.bound; known = h; held = v.held }

  pub IsSafe-le : {k : ℕ} → n ≤ k → IsSafe n asked pending conns → IsSafe k asked pending conns
  IsSafe-le le v = record {
    bound = λ i. let b = v.bound i in omega (arith, b, le);
    known = v.known;
    held = v.held;
  }
