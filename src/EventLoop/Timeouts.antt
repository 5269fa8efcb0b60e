-- ===== src/EventLoop/Timeouts.antt =====
-- How long the poller waits for the timers.
use mathlib.Core.Path.{subst}
use tiny_network_repository.Prelude.{
  ℕ, ◌+◌, ◌-◌, ◌^◌, ◌≤◌, ◌<◌, ◌≡◌, ◌⊎◌, inl, inr, sym, arith, min, max, Bool, false, List, [], ◌∷◌,
  if◌then◌else◌, leb, ◌==◌, Bool-cases,
}
use tiny_network_repository.EventBase.{
  EventBase, Timer, add_timer, run_at, precedes, once, repeated, negated,
}
use tiny_network_repository.EventBase.Timers.{Above, IsSorted, IsNew, add_timer-IsSorted}
use tiny_network_repository.EventBase.Cancel.{IsNew-le}
use tiny_network_repository.EventLoop.{
  EventLoop, difference, low_bits, as_timeout, refresh_nearest_timeout, run_at_refreshed,
}

-- The timers are less than 2 ^ 31 milliseconds from now.
abbrev pub AllNear : {A : Type 0} → ℕ → List (Timer A) → Type 0
AllNear now [] = Unit {0}
AllNear now (t ∷ ts) = ((t.at < now + 2 ^ 31) × (now < t.at + 2 ^ 31)) × AllNear now ts

-- At `m` it is not too late for a timer that was not too late before.
abbrev pub NoneMissed : {A : Type 0} → ℕ → ℕ → List (Timer A) → Type 0
NoneMissed now m [] = Unit {0}
NoneMissed now m (t ∷ ts) = (m ≤ max now t.at) × NoneMissed now m ts

-- At `m` the time of a timer has come.
abbrev pub SomeDue : {A : Type 0} → ℕ → List (Timer A) → Type 0
SomeDue m [] = ⊥
SomeDue m (t ∷ ts) = (t.at ≤ m) ⊎ SomeDue m ts

as_timeout_lem :
    (at now : ℕ)
    → at < now + 2 ^ 31
    → now < at + 2 ^ 31
    → as_timeout (low_bits (difference at now)) ≡ at - now
as_timeout_lem at now h k = elim (Bool-cases (leb now at)) [
  | inl e ↦ rw e (ground arith)
  | inr e ↦ rw e (ground arith)
]

NoneMissed-Above :
    {A : Type 0} (at seq now m : ℕ) (ts : List (Timer A))
    → m ≤ max now at
    → Above at seq ts
    → NoneMissed now m ts
NoneMissed-Above at seq now m [] h k = tt
NoneMissed-Above at seq now m (u ∷ us) h (k, ks) =
    (ground arith, NoneMissed-Above at seq now m us h ks)

AllNear-add_timer :
    {A : Type 0} (now : ℕ) (t : Timer A) (ts : List (Timer A))
    → t.at < now + 2 ^ 31
    → now < t.at + 2 ^ 31
    → AllNear now ts
    → AllNear now (add_timer t ts)
unfolding add_timer
AllNear-add_timer now t [] h k v = ((h, k), tt)
AllNear-add_timer now t (u ∷ us) h k (v, vs) = elim (Bool-cases (precedes t.at t.seq u.at u.seq)) [
  | inl e ↦ rw e ((h, k), (v, vs))
  | inr e ↦ rw e (v, AllNear-add_timer now t us h k vs)
]

-- A wait of `wait` milliseconds from `now`, instead of `wait_ms`, is right for the timers.
abbrev pub IsRightWait : {A : Type 0} → ℕ → ℕ → List (Timer A) → ℕ → Type 0
IsRightWait now wait_ms ts wait =
    (wait ≤ wait_ms) × NoneMissed now (now + wait) ts × ((wait ≡ wait_ms) ⊎ SomeDue (now + wait) ts)

module _ {A : Type 0} (now wait_ms : ℕ) (short : wait_ms ≤ 2 ^ 30) where
  -- x
  pub refresh_nearest_timeout_lem :
      (ts : List (Timer A)) (l : EventLoop A)
      → IsSorted ts
      → AllNear now ts
      → IsRightWait now wait_ms ts (min wait_ms (refresh_nearest_timeout now ts l).next_time_out)
  unfolding refresh_nearest_timeout
  refresh_nearest_timeout_lem [] l v near = (ground arith, tt, inl (ground arith))
  refresh_nearest_timeout_lem (t ∷ ts) l (above, v) ((h, k), near) =
      rw (as_timeout_lem t.at now h k) (
        ground arith,
        (ground arith, NoneMissed-Above t.at t.seq now _ ts (ground arith) above),
        elim (Bool-cases (leb wait_ms (t.at - now))) [
          | inl e ↦ inl (ground arith)
          | inr e ↦ inr (inl (ground arith))
        ],
      )

  run_at-timers :
      (milli interval : ℕ) (task : A) (e : EventBase A)
      → e.exit_flag ≡ false
      → IsSorted e.timers
      → IsNew (e.timer_seq + 1) e.timers
      → milli < now + 2 ^ 31
      → now < milli + 2 ^ 31
      → AllNear now e.timers
      → IsSorted (run_at milli task interval e).0.timers
        × AllNear now (run_at milli task interval e).0.timers
  unfolding run_at
  run_at-timers milli interval task e on v fresh h k near = elim (Bool-cases (interval == 0)) [
    | inl z ↦
        let t : Timer A = record { at = milli; seq = e.timer_seq + 1; work = once task } in
        rw (on, z)
          (add_timer-IsSorted t e.timers fresh v, AllNear-add_timer now t e.timers h k near)
    | inr z ↦
        let t : Timer A = record {
          at = milli;
          seq = e.timer_seq + 2;
          work = repeated (record { first = negated milli; second = e.timer_seq + 1 });
        } in
        rw (on, z)
          (
            add_timer-IsSorted t e.timers
                (IsNew-le (e.timer_seq + 1) (e.timer_seq + 2) e.timers (omega arith) fresh) v,
            AllNear-add_timer now t e.timers h k near,
          )
  ]

  -- After runAt for a time less than 2^31 milliseconds from now, in an event base that did not
  -- exit, with timers of the same kind in the order of their keys and with earlier sequence
  -- numbers, the poller waits at most as long as its caller says, if that is 2^30 milliseconds at
  -- most; it waits past the time of no timer, and waits less only if the time of a timer has come
  -- then.
  pub run_at_refreshed_lem :
      (milli interval : ℕ) (task : A) (e : EventBase A) (l : EventLoop A)
      → e.exit_flag ≡ false
      → IsSorted e.timers
      → IsNew (e.timer_seq + 1) e.timers
      → milli < now + 2 ^ 31
      → now < milli + 2 ^ 31
      → AllNear now e.timers
      → let ((e', l'), id) = run_at_refreshed now milli task interval (e, l) in
        IsRightWait now wait_ms e'.timers (min wait_ms l'.next_time_out)
  unfolding run_at_refreshed
  run_at_refreshed_lem milli interval task e l on v fresh h k near =
      let ts = (run_at milli task interval e).0.timers in
      let l' = refresh_nearest_timeout now ts l in
      let (sorted, near') = run_at-timers milli interval task e on v fresh h k near in
      subst
        (λ (b : Bool). IsRightWait now wait_ms ts (min wait_ms (if b then l else l').next_time_out))
        (sym on) (refresh_nearest_timeout_lem ts l sorted near')
