-- ===== src/System/Right/Loop.antt =====
-- What the event loop does keeps the invariant.
use mathlib.Core.Path.{subst}
use mathlib.Core.List.{Mem, mem-append_left, mem-append_right, mem-cons_self}
use tiny_network_repository.Prelude.{
  ℕ, ◌≡◌, true, false, ◌+◌, ◌^◌, ◌<◌, refl, sym, ◌∙◌, ap, arith, inl, inr, Bool, List, [], ◌∷◌,
  ◌++◌, Option, none, some, length, replicate, zero, suc, ◌≤◌, if◌then◌else◌, ◌==◌, ltb, if_lem,
  Bool-cases, ltb→lt, All, All-append, All_left, All_right, All_mono,
}
use tiny_network_repository.Prelude.Outcome.{
  Outcome, ok, err, WhenOk, WhenOk-both, WhenDone, WhenDone-map,
}
use tiny_network_repository.Buffer.{Cell, size}
use tiny_network_repository.Codec.{Msg}
use tiny_network_repository.Poller.{CtlCall, Poller}
use tiny_network_repository.TcpConnection.{TcpConnection}
use tiny_network_repository.TcpConnection.Output.{WriteResult, has_channel, tcp_handle_write}
use tiny_network_repository.TcpServer.{Accepts}
use tiny_network_repository.TcpServer.Accept.{named}
use tiny_network_repository.App.{Reading, Ended, waiting, recycled, starved}
use tiny_network_repository.App.Serve.{serve}
use tiny_network_repository.System.Decoded.{reports_read, serve_counted}
use tiny_network_repository.System.{System, Who, who, Sweeping, Acted, either}
use tiny_network_repository.TcpConnection.Input.{Reads}
use tiny_network_repository.System.Right.{IsRight}
use tiny_network_repository.System.Loop.{after_read, read_done, reading, after_write}
use tiny_network_repository.System.Run.{accept, read, write, act}
use tiny_network_repository.System.Known.{
  IsKnown, Keeps, Holds, Keeps-refl, queued, under_way, IsSafe-update, IsSafe-asked, IsSafe-pending,
}
use tiny_network_repository.System.Reader.{IsSame, IsFor, Serves, serve-Serves}
use tiny_network_repository.System.Writer.{SamePeer, tcp_handle_write-SamePeer}
use tiny_network_repository.System.Changes.{handle_accept-IsSafe}

pub accepting-IsRight :
    (ctl_ok : CtlCall → Bool) (script : Accepts) (n : ℕ) (s : System)
    → n + length (named script) < 2 ^ 64
    → IsRight n s
    → WhenDone (IsRight (n + length (named script))) (act ctl_ok (accept script) s)
unfolding act
accepting-IsRight ctl_ok script n s few v = record {
  safe =
      handle_accept-IsSafe ctl_ok s.asked (under_way s) script n
        (record { pool = s.pool; poller = s.poller; closed = [] }) few v.safe;
  sent = v.sent;
  flushed = v.flushed;
}

more_asked :
    (asked more : List Who) (xs : List Who)
    → All (λ x. Mem x asked) xs
    → All (λ x. Mem x (asked ++ more)) xs
more_asked asked more xs h = All_mono xs (λ x m. mem-append_left more m) h

IsKnown-IsFor :
    {asked : List Who} (i : ℕ) (conns : ℕ → TcpConnection) (m : Msg)
    → Mem (who i (conns i)) asked
    → IsFor i (conns i) m
    → IsKnown asked conns m
IsKnown-IsFor {asked} i conns m asker e =
    subst (IsKnown asked conns) (λ t. record { msg_head = sym e t; rpt = m.rpt })
      (record { peer = (conns i).peer; asker = asker; past = omega arith; same = λ q. refl })

-- The tasks of a read are known, as the peer of the connection asked for them.
tasks-IsKnown :
    (asked : List Who) (i : ℕ) (conns : ℕ → TcpConnection) (ms : List Msg) (n : ℕ)
    → length ms ≤ n
    → All (IsFor i (conns i)) ms
    → All (IsKnown (asked ++ replicate n (who i (conns i))) conns) ms
tasks-IsKnown asked i conns [] n le h = tt
tasks-IsKnown asked i conns (m ∷ ms) zero le h = absurd (omega (arith, le))
tasks-IsKnown asked i conns (m ∷ ms) (suc n) le h =
    All_mono (m ∷ ms) (λ x. IsKnown-IsFor i conns x (mem-append_right asked mem-cons_self)) h

after_read-IsRight :
    (n i k : ℕ) (s : System) (r : Reading)
    → Serves i (s.pool.conns i) s.recy r
    → length r.tasks ≤ k
    → IsRight n s
    → IsRight n (after_read i k s r)
after_read-IsRight n i k s r v le w =
    let conns = s.pool.conns in
    let more = replicate k (who i (conns i)) in
    let asked = s.asked ++ more in
    let known = (IsSafe-asked more w.safe).known in
    let queue = queued s.pass s.send.msg_event_queue in
    let pending : All (IsKnown asked conns) ((s.tasks ++ r.tasks) ++ queue) =
      All-append (IsKnown asked conns) (s.tasks ++ r.tasks) queue
        (All-append (IsKnown asked conns) s.tasks r.tasks
          (All_left (IsKnown asked conns) s.tasks queue known)
          (tasks-IsKnown s.asked i conns r.tasks k le v.tasks))
        (All_right (IsKnown asked conns) s.tasks queue known) in
    record {
      safe =
          IsSafe-update i r.conn (keeps conns v.stays.same)
            (IsSafe-pending _ pending (IsSafe-asked more w.safe));
      sent = more_asked s.asked more s.sent w.sent;
      flushed = more_asked s.asked more s.flushed w.flushed;
    }
  where
    keeps :
        {asked : List Who} {c : TcpConnection} (conns : ℕ → TcpConnection)
        → IsSame (conns i) c
        → Keeps asked i (conns i) c
    keeps conns same = record {
      sequence = same.sequence;
      peer = same.peer;
      holds = λ h.
          let open_too = same.channel in
          let unsent = same.write_buffer in
          inl (sym open_too ∙ h.0, omega (arith, ap size unsent, h.1));
    }

finished :
    (Q : System → Type 0) (i n : ℕ) (s : System) (r : Reading) (o : Option Sweeping)
    → Q (after_read i n s r)
    → WhenDone Q (elim o [
      | none ↦ some (ok (after_read i n s r))
      | some w ↦
          if length r.recy.event_queue == length s.recy.event_queue
          then some (ok (after_read i n s r))
          else none
    ])
finished Q i n s r none q = q
finished Q i n s r (some sweep) q =
    if_lem (WhenDone Q) (length r.recy.event_queue == length s.recy.event_queue) (λ e. q) (λ e. tt)

either-WhenDone {ℓ κ} :
    {A : Type ℓ} {P : A → Type κ} (Q : System → Type 0) (next : A → Acted) (o : Outcome A)
    → WhenOk P o
    → ((x : A) → P x → WhenDone Q (next x))
    → WhenDone Q (either next o)
either-WhenDone Q next (err e) h f = tt
either-WhenDone Q next (ok x) h f = f x h

read_done-WhenDone :
    (Q : System → Type 0) (i n : ℕ) (s : System) (r : Reading × Option Ended)
    → Q (after_read i n s r.0)
    → WhenDone Q (read_done i n s r)
read_done-WhenDone Q i n s (r, some starved) q = tt
read_done-WhenDone Q i n s (r, none) q = finished Q i n s r s.sweep q
read_done-WhenDone Q i n s (r, some waiting) q = finished Q i n s r s.sweep q
read_done-WhenDone Q i n s (r, some recycled) q = finished Q i n s r s.sweep q

-- What holds after every read holds after this one.
pub reading-WhenDone :
    (Q : System → Type 0) (now i fuel : ℕ) (reads : Reads) (s : System)
    → ((n : ℕ) (r : Reading)
        → has_channel (s.pool.conns i) ≡ true
        → Serves i (s.pool.conns i) s.recy r
        → length r.tasks ≤ n
        → Q (after_read i n s r))
    → WhenDone Q (reading now i fuel reads s)
reading-WhenDone Q now i fuel reads s q =
    let c = s.pool.conns i in
    let r₀ : Reading = record { conn = c; recy = s.recy; poller = s.poller; tasks = [] } in
    let n = reports_read now i fuel reads r₀ in
    if_lem (WhenDone Q) (has_channel c)
      (λ e.
        either-WhenDone Q _ _
          (WhenOk-both _ _ (serve now i false fuel reads r₀)
            (serve-Serves now i fuel reads c s.recy s.poller)
            (serve_counted now i fuel reads r₀ refl))
          (λ r v. read_done-WhenDone Q i n s r (q n r.0 e v.0 v.1)))
      (λ e. tt)

pub reading-IsRight :
    (ctl_ok : CtlCall → Bool) (now i fuel : ℕ) (reads : Reads) (n : ℕ) (s : System)
    → IsRight n s
    → WhenDone (IsRight n) (act ctl_ok (read now i fuel reads) s)
unfolding act
reading-IsRight ctl_ok now i fuel reads n s w =
    reading-WhenDone (IsRight n) now i fuel reads s
      (λ k r e v le. after_read-IsRight n i k s r v le w)

wrote-IsRight :
    (n i : ℕ) (s : System) (r : TcpConnection × Poller × List Cell)
    → Holds (s.pool.conns i)
    → SamePeer (s.pool.conns i) r.0
    → IsRight n s
    → IsRight n (after_write i s r)
wrote-IsRight n i s r held v w = record {
  safe =
      IsSafe-update i r.0 (record { sequence = v.sequence; peer = v.peer; holds = λ h. inl held })
        w.safe;
  sent = w.sent;
  flushed =
      if_lem (All (λ x. Mem x s.asked)) (ltb 0 (size (s.pool.conns i).write_buffer))
        (λ e. All-append (λ x. Mem x s.asked) s.flushed (_ ∷ []) w.flushed (w.safe.held i held, tt))
        (λ e. w.flushed);
}

pub writing-IsRight :
    (ctl_ok : CtlCall → Bool) (i : ℕ) (script : List WriteResult) (n : ℕ) (s : System)
    → IsRight n s
    → WhenDone (IsRight n) (act ctl_ok (write i script) s)
unfolding act tcp_handle_write
writing-IsRight ctl_ok i script n s w =
    let c = s.pool.conns i in
    if_lem (WhenDone (IsRight n)) (has_channel c)
      (λ e. elim (Bool-cases (ltb 0 (size c.write_buffer))) [
        | inl some_left ↦
            WhenDone-map (IsRight n) (tcp_handle_write script c s.poller) _
              (tcp_handle_write-SamePeer script c s.poller)
              (λ r v. wrote-IsRight n i s r (e, ltb→lt 0 (size c.write_buffer) some_left) v w)
        | inr none_left ↦ rw none_left record {
          safe = IsSafe-update i c (Keeps-refl s.asked i c) w.safe;
          sent = w.sent;
          flushed = w.flushed;
        }
      ])
      (λ e. tt)
