-- ===== src/EventLoop/Exit.antt =====
-- How the loop ends.
use tiny_network_repository.Prelude.{
  ℕ, suc, ◌^◌, ◌≡◌, refl, ◌∙◌, ap, arith, min, Bool, true, false, List, [], ◌∷◌, some,
  if◌then◌else◌,
}
use tiny_network_repository.Prelude.Outcome.{ok}
use tiny_network_repository.EventBase.{handle_timeouts}
use tiny_network_repository.EventLoop.{
  State, Round, refresh_nearest_timeout, loop_once, last_turn, loop, next_turn, after_timers,
}

-- The state without its timers.
abbrev pub cleared : {A W : Type 0} → State A W → State A W
cleared (e, rest) = (record e { timers = []; rep_timers = [] }, rest)

-- No timer is left, so that the poller may wait as long as it can.
abbrev pub untimed : {A W : Type 0} → State A W → State A W
untimed (e, (l, w)) = (e, (record l { next_time_out = 2 ^ 30 }, w))

module _ {A W : Type 0} (call : A → State A W → State A W) (fuel : ℕ) where
  no_timers :
      (now now' : ℕ) (t : State A W)
      → t.0.timers ≡ []
      → after_timers call now' (handle_timeouts call now (suc fuel) t) ≡ some (ok (untimed t))
  unfolding handle_timeouts refresh_nearest_timeout
  no_timers now now' (e, (l, w)) h = rw h refl

  last_turn_lem :
      (end : Round (State A W)) (s : State A W)
      → (end.poll 0 (cleared s)).0.timers ≡ []
      → last_turn call (suc fuel) end s ≡ some (ok (untimed (end.poll 0 (cleared s))))
  unfolding loop_once
  last_turn_lem end (e, (l, w)) h =
      let zero_wait : min 0 l.next_time_out ≡ 0 = ground arith in
      rw zero_wait (no_timers end.now end.now' (end.poll 0 (cleared (e, (l, w)))) h)

  -- Where a round of a loop that did not exit leaves the exit flag set, no further round runs: the
  -- timers are dropped, the poller runs once more with no wait, and, where it enters no timers, the
  -- loop returns with what it left, and with the longest timeout.
  pub loop_exits :
      (end r : Round (State A W)) (rounds : List (Round (State A W))) (s t : State A W)
      → s.0.exit_flag ≡ false
      → loop_once call (suc fuel) 10000 r s ≡ some (ok t)
      → t.0.exit_flag ≡ true
      → (end.poll 0 (cleared t)).0.timers ≡ []
      → loop call (suc fuel) end (r ∷ rounds) s ≡ some (ok (untimed (end.poll 0 (cleared t))))
  unfolding loop
  loop_exits end r rounds s t on first off h =
      let more = loop call (suc fuel) end rounds in
      ap
        (λ (b : Bool).
          if b
          then last_turn call (suc fuel) end s
          else next_turn call more (loop_once call (suc fuel) 10000 r s))
        on
      ∙ ap (next_turn call more) first
      ∙ exited rounds t off
      ∙ last_turn_lem end t h
    where
      exited :
          (rounds : List (Round (State A W))) (t : State A W)
          → t.0.exit_flag ≡ true
          → loop call (suc fuel) end rounds t ≡ last_turn call (suc fuel) end t
      exited [] t off = rw off
      exited (r ∷ rounds) t off = rw off
