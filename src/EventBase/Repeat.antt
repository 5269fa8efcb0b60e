-- ===== src/EventBase/Repeat.antt =====
-- A timer that repeats, when the loop comes late.
use tiny_network_repository.Prelude.{
  ℕ, zero, suc, ◌+◌, ◌*◌, ◌^◌, ◌≤◌, ◌<◌, ◌≡◌, refl, ◌∙◌, ap, arith, true, false, Bool, [], ◌∷◌,
  some,
}
use tiny_network_repository.Prelude.Int.{ℤ, pos, negsuc}
use tiny_network_repository.Prelude.Outcome.{ok}
use tiny_network_repository.EventBase.{
  EventBase, TimerId, TimerRepeatable, repeated, precedes, same_id, find, add_timer, again, perform,
  handle_timeouts, repeat_found,
}

same_id_self : (id : TimerId) → same_id id id ≡ true
same_id_self id = same_parts id.first id.second id refl refl
  where
    same_parts :
        (z : ℤ) (n : ℕ) (id : TimerId) → id.first ≡ z → id.second ≡ n → same_id id id ≡ true
    same_parts (pos m) n id e h = rw (e, h) (ground arith)
    same_parts (negsuc m) n id e h = rw (e, h) (ground arith)

module _ {ℓ} {A : Type ℓ} (exited : Bool) (id : TimerId) (interval : ℕ) (cb : A) where
  -- An event base with one timer, which repeats: `seq` is the last sequence number.
  abbrev pub ticking : ℕ → ℕ → EventBase A
  ticking at seq = record {
    exit_flag = exited;
    timer_seq = seq;
    timers = record { at = at; seq = seq; work = repeated id } ∷ [];
    rep_timers =
        record { id = id; at = at; interval = interval; timer_at = at; timer_seq = seq; cb = cb }
        ∷ [];
  }

  module _ {W : Type 0} (call : A → EventBase A × W → EventBase A × W) (f : W → W)
      (apart : (e : EventBase A) (w : W) → call cb (e, w) ≡ (e, f w)) where
    abbrev pub times : ℕ → W → W
    times zero w = w
    times (suc n) w = times n (f w)

    tick :
        (at seq : ℕ) (w : W)
        → perform call (repeated id) (record (ticking at seq) { timers = [] }, w)
          ≡ ok (ticking (at + interval) (seq + 1), f w)
    unfolding perform add_timer
    tick at seq w =
        ap (λ o. repeat_found call o (e, w)) found
        ∙ ap (λ e'. ok (call cb (e', w))) entered
        ∙ ap ok (apart (ticking (at + interval) (seq + 1)) w)
      where
        e : EventBase A
        e = record (ticking at seq) { timers = [] }

        r : TimerRepeatable A
        r = record {
          id = id;
          at = at;
          interval = interval;
          timer_at = at;
          timer_seq = seq;
          cb = cb;
        }

        found : find id (r ∷ []) ≡ some r
        found = rw (same_id_self id) refl

        entered : again r e ≡ ticking (at + interval) (seq + 1)
        entered = rw (same_id_self id) refl

    -- An event base whose only timer repeats, with a task that leaves it alone: where n is the
    -- number of its times up to now (the time n intervals after the timer's is behind now, by one
    -- interval at most), n rounds and one more are enough for handleTimeouts, the task runs n
    -- times, and the timer is entered again for that time. The sequence numbers stay below 2^62.
    pub catches_up :
        (now n fuel at seq : ℕ) (w : W)
        → n < fuel
        → at + n * interval ≤ now + interval
        → now < at + n * interval
        → seq + n < 2 ^ 62
        → handle_timeouts call now fuel (ticking at seq, w)
          ≡ some (ok (ticking (at + n * interval) (seq + n), times n w))
    unfolding handle_timeouts
    catches_up now n zero at seq w lt h k small = absurd (omega arith)
    catches_up now zero (suc fuel) at seq w lt h k small =
        let ahead : now < at = omega (arith, k) in
        let off : precedes at seq now (2 ^ 62) ≡ false = ground arith in
        let stays : at ≡ at + 0 * interval = omega arith in
        let same : seq ≡ seq + 0 = omega arith in
        rw off (
          ap (λ a. some (ok (ticking a seq, w))) stays
          ∙ ap (λ q. some (ok (ticking (at + 0 * interval) q, w))) same)
    catches_up now (suc n) (suc fuel) at seq w lt h k small =
        let step : suc n * interval ≡ interval + n * interval = omega arith in
        let due : at ≤ now = omega (arith, h, step) in
        let on : precedes at seq now (2 ^ 62) ≡ true = ground (arith, small) in
        let there : at + interval + n * interval ≡ at + suc n * interval = omega (arith, step) in
        let count : seq + 1 + n ≡ seq + suc n = omega arith in
        rw (on, tick at seq w)
          (catches_up now n fuel (at + interval) (seq + 1) (f w) (omega arith)
              (omega (arith, h, step)) (omega (arith, k, step)) (omega arith)
            ∙ ap (λ a. some (ok (ticking a (seq + 1 + n), times n (f w)))) there
            ∙ ap (λ q. some (ok (ticking (at + suc n * interval) q, times n (f w)))) count)
