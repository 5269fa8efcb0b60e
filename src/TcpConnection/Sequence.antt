-- ===== src/TcpConnection/Sequence.antt =====
-- The sequence number by which the sending thread tells messages of an earlier peer.
use tiny_network_repository.Prelude.{
  ℕ, ◌+◌, ◌^◌, ◌%◌, ◌<◌, ◌≡◌, ◌≢◌, refl, arith, Bool, List, [], ◌∷◌, length,
}
use tiny_network_repository.Prelude.Int.{ℤ}
use tiny_network_repository.Poller.{CtlCall, Poller}
use tiny_network_repository.TcpConnection.{TcpConnection, init, reset}

-- What happens to a connection object between one peer and the next: a new descriptor, with the
-- other arguments of init, or the end of one.
pub data Life : Type 0 where
  opened : (at next_id : ℕ) → ℤ → (base local peer pool : ℕ) → Life
  ended : Life

module _ (ctl_ok : CtlCall → Bool) where
  abbrev pub live : TcpConnection × Poller → Life → TcpConnection × Poller
  live (c, p) (opened at next_id fd base local peer pool) =
      init ctl_ok at next_id fd base local peer pool c p
  live (c, p) ended = let (c', p', closed) = reset c p in (c', p')

  abbrev pub lives : TcpConnection × Poller → List Life → TcpConnection × Poller
  lives s [] = s
  lives s (l ∷ ls) = lives (live s l) ls

  cur_sequence-live :
      (s : TcpConnection × Poller) (l : Life)
      → (live s l).0.cur_sequence ≡ (s.0.cur_sequence + 1) % 2 ^ 64
  unfolding init reset
  cur_sequence-live (c, p) (opened at next_id fd base local peer pool) = refl
  cur_sequence-live (c, p) ended = refl

  cur_sequence-lives :
      (s : TcpConnection × Poller) (ls : List Life)
      → s.0.cur_sequence < 2 ^ 64
      → (lives s ls).0.cur_sequence ≡ (s.0.cur_sequence + length ls) % 2 ^ 64
  cur_sequence-lives s [] h = omega arith
  cur_sequence-lives s (l ∷ ls) h =
      let step = cur_sequence-live s l in
      omega (arith, step, cur_sequence-lives (live s l) ls (omega (arith, step)))

  -- After one or more openings and ends, fewer than 2^64, a connection does not have the sequence
  -- number that it had.
  pub cur_sequence_fresh :
      (s : TcpConnection × Poller) (l : Life) (ls : List Life)
      → s.0.cur_sequence < 2 ^ 64
      → length (l ∷ ls) < 2 ^ 64
      → (lives s (l ∷ ls)).0.cur_sequence ≢ s.0.cur_sequence
  cur_sequence_fresh s l ls h few same =
      absurd (omega (arith, cur_sequence-lives s (l ∷ ls) h, same))
