-- ===== src/System/Decoded.antt =====
-- The reports that a readable connection has received, counted by `decode` alone: for the history, and
-- for a bound on the tasks.
use tiny_network_repository.Prelude.{
  ℕ, zero, suc, ◌+◌, ◌≤◌, arith, Bool, true, false, [], ◌∷◌, Option, some, none, ◌≡◌, length,
  if◌then◌else◌, length-append,
}
use tiny_network_repository.Prelude.Int.{ℤ, pos, negsuc}
use tiny_network_repository.Prelude.Outcome.{
  Outcome, ok, err, ◌>>=◌, WhenOk, WhenOk->>=, WhenOk-vacuous, WhenOk-mono,
}
use tiny_network_repository.Codec.{Rpt, decode}
use tiny_network_repository.Poller.{Poller}
use tiny_network_repository.RecyThread.{RecyThread}
use tiny_network_repository.TcpConnection.{TcpConnection, recycle}
use tiny_network_repository.TcpConnection.Input.{
  Reads, tcp_handle_read, get_recv_buffer_addr, get_recv_buffer_size, consumed_recv_buffer_size,
}
use tiny_network_repository.App.{Reading, Ended, read_task, take_report, give_up, react}
use tiny_network_repository.App.Serve.{serve}

abbrev pub and_more : (ℕ → ℕ) → Outcome (ℤ × Rpt) → ℕ
and_more next (err e) = 0
and_more next (ok (negsuc n, rpt)) = 0
and_more next (ok (pos zero, rpt)) = 0
and_more next (ok (pos (suc n), rpt)) = suc (next (suc n))

-- How many reports `decode` finds at the front of the receive buffer, one behind the other.
unfoldable pub reports : ℕ → TcpConnection → ℕ
reports zero c = 0
reports (suc fuel) c =
    and_more (λ k. reports fuel (consumed_recv_buffer_size c k))
      (decode (get_recv_buffer_addr c) (get_recv_buffer_size c))

abbrev pub received : ℕ → Outcome (TcpConnection × RecyThread × Poller × Bool) → ℕ
received fuel (err e) = 0
received fuel (ok (c, t, p, called)) = if called then reports fuel c else 0

-- How many it finds after the read of an event.
unfoldable pub reports_read : ℕ → ℕ → ℕ → Reads → Reading → ℕ
unfolding reports
reports_read now self fuel reads r =
    received fuel (tcp_handle_read now self reads r.conn r.recy r.poller)

module _ (now self : ℕ) where
  abbrev IsWithin : ℕ → Reading × Ended → Type 0
  IsWithin n q = length q.0.tasks ≤ n

  give_up-IsWithin :
      (n : ℕ) (r : Reading) → length r.tasks ≤ n → WhenOk (IsWithin n) (give_up now self r)
  give_up-IsWithin n r le =
      let recycled = recycle now self r.conn r.recy r.poller in
      WhenOk->>= (IsWithin n) recycled _ (WhenOk-vacuous recycled) (λ q u. le)

  length-take_report :
      (n : ℕ) (rpt : Rpt) (r : Reading)
      → length (take_report false self n rpt r).tasks ≤ length r.tasks + 1
  unfolding take_report
  length-take_report n rpt r = omega (arith, length-append r.tasks (_ ∷ []))

  pub read_task-IsWithin :
      (fuel : ℕ) (r : Reading)
      → WhenOk (IsWithin (length r.tasks + reports fuel r.conn)) (read_task now self false fuel r)
  unfolding read_task reports take_report consumed_recv_buffer_size
  read_task-IsWithin zero r = omega arith
  read_task-IsWithin (suc fuel) r =
      decoded (λ k rpt. read_task-IsWithin fuel (take_report false self k rpt r))
        (decode (get_recv_buffer_addr r.conn) (get_recv_buffer_size r.conn))
    where
      left : ℕ → ℕ
      left k = reports fuel (consumed_recv_buffer_size r.conn k)

      decoded :
          (more : (k : ℕ) (rpt : Rpt)
            → WhenOk
                (IsWithin (length (take_report false self k rpt r).tasks + left k))
                (read_task now self false fuel (take_report false self k rpt r)))
          (d : Outcome (ℤ × Rpt))
          → WhenOk (IsWithin (length r.tasks + and_more left d)) (
              d >>= λ q.
              react now self r q.0
                (λ k. read_task now self false fuel (take_report false self k q.1 r)))
      decoded more (err e) = tt
      decoded more (ok (negsuc n, rpt)) = give_up-IsWithin (length r.tasks + 0) r (omega arith)
      decoded more (ok (pos zero, rpt)) = omega arith
      decoded more (ok (pos (suc n), rpt)) =
          let taken = take_report false self (suc n) rpt r in
          WhenOk-mono (IsWithin (length taken.tasks + left (suc n)))
            (IsWithin (length r.tasks + suc (left (suc n)))) (read_task now self false fuel taken)
            (λ q le. omega (arith, le, length-take_report (suc n) rpt r)) (more (suc n) rpt)

-- Of a readable connection that has no tasks before, no more tasks come than reports.
pub serve_counted :
    (now self fuel : ℕ) (reads : Reads) (r : Reading)
    → length r.tasks ≡ 0
    → WhenOk
        (λ (q : Reading × Option Ended). length q.0.tasks ≤ reports_read now self fuel reads r)
        (serve now self false fuel reads r)
unfolding serve reports_read
serve_counted now self fuel reads r none_before =
    handled (tcp_handle_read now self reads r.conn r.recy r.poller)
  where
    handled :
        (o : Outcome (TcpConnection × RecyThread × Poller × Bool))
        → WhenOk
            (λ (q : Reading × Option Ended). length q.0.tasks ≤ received fuel o)
            (o >>= λ q.
              let r' : Reading = record r { conn = q.0; recy = q.1; poller = q.2 } in
              if q.3
              then (read_task now self false fuel r' >>= λ s. ok (s.0, some s.1))
              else ok (r', none))
    handled (err e) = tt
    handled (ok (c, t, p, false)) = omega (arith, none_before)
    handled (ok (c, t, p, true)) =
        let r' : Reading = record r { conn = c; recy = t; poller = p } in
        WhenOk->>= (λ (q : Reading × Option Ended). length q.0.tasks ≤ reports fuel c)
          (read_task now self false fuel r') _ (read_task-IsWithin now self fuel r')
          (λ q le. omega (arith, le, none_before))
