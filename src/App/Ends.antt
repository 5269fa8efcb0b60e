-- ===== src/App/Ends.antt =====
-- The read callback ends on any buffer.
use tiny_network_repository.Prelude.{
  ℕ, zero, suc, ◌≤◌, ◌<◌, ◌≡◌, ◌≢◌, refl, ◌∙◌, ap, arith, Bool, length, length-drop,
}
use tiny_network_repository.Prelude.Int.{ℤ, pos, negsuc}
use tiny_network_repository.Prelude.Outcome.{Outcome, ok, >>=-eq-ok}
use tiny_network_repository.Buffer.{size, contents, from_data, consumed}
use tiny_network_repository.Buffer.Valid.{
  IsValid, consumed-IsValid, contents-consumed, length-contents,
}
use tiny_network_repository.Codec.{decode}
use tiny_network_repository.Codec.Sound.{decode-IsFrame}
use tiny_network_repository.TcpConnection.Input.{get_recv_buffer_addr, get_recv_buffer_size}
use tiny_network_repository.TcpConnection.{recycle}
use tiny_network_repository.App.{Reading, Ended, starved, read_task, take_report, give_up, react}

given_up :
    (now self : ℕ) (r : Reading) {r' : Reading} {e : Ended}
    → give_up now self r ≡ ok (r', e)
    → e ≢ starved
given_up now self r h =
    let (a, _, done) = >>=-eq-ok (recycle now self r.conn r.recy r.poller) _ h in λ q. ground arith

reacted :
    (now self : ℕ) (r : Reading) (n : ℤ) (next : ℕ → Outcome (Reading × Ended)) {r' : Reading}
    {e : Ended}
    → ((k : ℕ) → n ≡ pos (suc k) → next (suc k) ≡ ok (r', e) → e ≢ starved)
    → react now self r n next ≡ ok (r', e)
    → e ≢ starved
reacted now self r (negsuc _) next more h = given_up now self r h
reacted now self r (pos zero) next more h = λ q. ground arith
reacted now self r (pos (suc k)) next more h = more k refl h

-- With more rounds than a valid receive buffer has bytes, the read callback does not run out of
-- them.
pub read_task_ends :
    (now self : ℕ) (stopped : Bool) (fuel : ℕ) (r : Reading) {r' : Reading} {e : Ended}
    → IsValid r.conn.recv_buffer
    → size r.conn.recv_buffer < fuel
    → read_task now self stopped fuel r ≡ ok (r', e)
    → e ≢ starved
unfolding read_task take_report get_recv_buffer_addr get_recv_buffer_size
read_task_ends now self stopped zero r v lt h = absurd (omega arith)
read_task_ends now self stopped (suc fuel) r {r'} {e} v lt h =
    let b = r.conn.recv_buffer in
    let ((n, rpt), dec, h') = >>=-eq-ok (decode (from_data b) (size b)) _ h in
    reacted now self r n (λ k. read_task now self stopped fuel (take_report stopped self k rpt r))
      (λ k is_k again.
        let dec' : decode (from_data b) (size b) ≡ ok (pos (suc k), rpt) =
          dec ∙ ap (λ z. ok (z, rpt)) is_k in
        let (frame, fits) = decode-IsFrame (from_data b) (size b) k dec' in
        read_task_ends now self stopped fuel (take_report stopped self (suc k) rpt r)
          (consumed-IsValid (suc k) fits v) (shrinks k fits) again)
      h'
  where
    shrinks :
        (k : ℕ)
        → suc k ≤ size r.conn.recv_buffer
        → size (consumed r.conn.recv_buffer (suc k)) < fuel
    shrinks k fits =
        let left = consumed-IsValid (suc k) fits v in
        omega (
          arith,
          length-contents left,
          ap length (contents-consumed (suc k) fits v),
          length-drop (suc k) (contents r.conn.recv_buffer),
          length-contents v,
        )
