-- ===== src/EventBase.antt =====
-- The timers of net/tiny_eventbase.cxx. `m_timers` is the list of its entries in the order of their
-- keys, the time and the sequence number; the clock, in milliseconds, is a natural number, and so
-- are the times and intervals that timers are given. What a task does is an argument: it may change
-- the event base itself, and whatever else the program keeps. The timeout for the poller, the task
-- queue and the pipe are in EventLoop.

pub mod Timers
pub mod Cancel
pub mod Repeat
mod Tests
use tiny_network_repository.Prelude.{
  ℕ, zero, suc, ◌+◌, ◌-◌, ◌^◌, Bool, true, false, not, ◌&&◌, ◌||◌, List, [], ◌∷◌, ◌++◌, Option,
  none, some, length, if◌then◌else◌, ltb, leb, ◌==◌,
}
use tiny_network_repository.Prelude.Outcome.{Outcome, ok, err, null_pointer, out_of_bounds}
use tiny_network_repository.Prelude.Int.{ℤ, pos, negsuc}

-- A repeating timer is known by its negated time.
pub record TimerId : Type 0 where
  pub first : ℤ
  pub second : ℕ

-- A task of its own, or the call of repeatableTimeout for an entry of `m_repTimers`.
pub data Work {ℓ} (A : Type ℓ) : Type ℓ where
  once : A → Work A
  repeated : TimerId → Work A

pub record Timer {ℓ} (A : Type ℓ) : Type ℓ where
  pub at : ℕ
  pub seq : ℕ
  pub work : Work A

pub record TimerRepeatable {ℓ} (A : Type ℓ) : Type ℓ where
  pub id : TimerId
  pub at : ℕ
  pub interval : ℕ
  pub timer_at : ℕ
  pub timer_seq : ℕ
  pub cb : A

pub record EventBase {ℓ} (A : Type ℓ) : Type ℓ where
  pub exit_flag : Bool
  pub timer_seq : ℕ
  pub timers : List (Timer A)
  pub rep_timers : List (TimerRepeatable A)

-- The order of the keys.
abbrev pub precedes : ℕ → ℕ → ℕ → ℕ → Bool
precedes at seq at' seq' = ltb at at' || (at == at' && ltb seq seq')

-- A key that is new: the sequence number is.
unfoldable pub add_timer {ℓ} : {A : Type ℓ} → Timer A → List (Timer A) → List (Timer A)
add_timer t [] = t ∷ []
add_timer t (u ∷ us) =
    let rest = add_timer t us in if precedes t.at t.seq u.at u.seq then t ∷ u ∷ us else u ∷ rest

abbrev pub negated : ℕ → ℤ
negated zero = pos 0
negated (suc n) = negsuc n

-- TimerId()
abbrev pub no_timer : TimerId
no_timer = record { first = pos 0; second = 0 }

unfoldable pub run_at {ℓ} : {A : Type ℓ} → ℕ → A → ℕ → EventBase A → EventBase A × TimerId
unfolding add_timer
run_at milli task interval e =
    if e.exit_flag
    then (e, no_timer)
    else if interval == 0
    then (
      record e {
        timer_seq = e.timer_seq + 1;
        timers =
            add_timer (record { at = milli; seq = e.timer_seq + 1; work = once task }) e.timers;
      },
      record { first = pos milli; second = e.timer_seq + 1 },
    )
    else (let id : TimerId = record { first = negated milli; second = e.timer_seq + 1 } in
        (
          record e {
            timer_seq = e.timer_seq + 2;
            timers =
                add_timer (record { at = milli; seq = e.timer_seq + 2; work = repeated id })
                  e.timers;
            rep_timers =
                record {
                  id = id;
                  at = milli;
                  interval = interval;
                  timer_at = milli;
                  timer_seq = e.timer_seq + 2;
                  cb = task;
                }
                ∷ e.rep_timers;
          },
          id,
        ))

-- The key of the timer comes before now, with a sequence number above all that are used.
abbrev pub is_expired {ℓ} : {A : Type ℓ} → ℕ → Timer A → Bool
is_expired now t = precedes t.at t.seq now (2 ^ 62)

abbrev pub same_id : TimerId → TimerId → Bool
same_id a b = same a.first b.first && a.second == b.second
  where
    same : ℤ → ℤ → Bool
    same (pos m) (pos n) = m == n
    same (negsuc m) (negsuc n) = m == n
    same _ _ = false

abbrev pub find {ℓ} : {A : Type ℓ} → TimerId → List (TimerRepeatable A) → Option (TimerRepeatable A)
find id [] = none
find id (r ∷ rs) = let rest = find id rs in if same_id id r.id then some r else rest

-- The entry of the same timer is replaced.
abbrev pub store {ℓ} :
    {A : Type ℓ} → TimerRepeatable A → List (TimerRepeatable A) → List (TimerRepeatable A)
store r [] = []
store r (s ∷ rs) = let rest = store r rs in if same_id r.id s.id then r ∷ rs else s ∷ rest

abbrev pub erase_rep {ℓ} :
    {A : Type ℓ} → TimerId → List (TimerRepeatable A) → List (TimerRepeatable A)
erase_rep id [] = []
erase_rep id (r ∷ rs) = let rest = erase_rep id rs in if same_id id r.id then rs else r ∷ rest

abbrev pub is_key {ℓ} : {A : Type ℓ} → ℕ → ℕ → Timer A → Bool
is_key at seq t = at == t.at && seq == t.seq

abbrev pub has_key {ℓ} : {A : Type ℓ} → ℕ → ℕ → List (Timer A) → Bool
has_key at seq [] = false
has_key at seq (t ∷ ts) = is_key at seq t || has_key at seq ts

unfoldable pub erase_key {ℓ} : {A : Type ℓ} → ℕ → ℕ → List (Timer A) → List (Timer A)
erase_key at seq [] = []
erase_key at seq (t ∷ ts) =
    let rest = erase_key at seq ts in if is_key at seq t then ts else t ∷ rest

-- An unknown repeating timer is read at the end of the map.
abbrev pub cancel_found {ℓ} :
    {A : Type ℓ} → TimerId → Option (TimerRepeatable A) → EventBase A → Outcome (EventBase A × Bool)
cancel_found id none e = err out_of_bounds
cancel_found id (some r) e = ok (
  record e {
    timers = erase_key r.timer_at r.timer_seq e.timers;
    rep_timers = erase_rep id e.rep_timers;
  },
  true,
)

abbrev pub cancel_at {ℓ} : {A : Type ℓ} → ℤ → TimerId → EventBase A → Outcome (EventBase A × Bool)
cancel_at (negsuc n) id e = cancel_found id (find id e.rep_timers) e
cancel_at (pos at) id e =
    if has_key at id.second e.timers
    then ok (record e { timers = erase_key at id.second e.timers }, true)
    else ok (e, false)

unfoldable pub cancel {ℓ} : {A : Type ℓ} → TimerId → EventBase A → Outcome (EventBase A × Bool)
unfolding erase_key
cancel id e = cancel_at id.first id e

-- repeatableTimeout: the timer is entered again, and then its task runs.
abbrev pub again {ℓ} : {A : Type ℓ} → TimerRepeatable A → EventBase A → EventBase A
again r e =
    let at = r.at + r.interval in
    let seq = e.timer_seq + 1 in
    record e {
      timer_seq = seq;
      timers = add_timer (record { at = at; seq = seq; work = repeated r.id }) e.timers;
      rep_timers = store (record r { at = at; timer_at = at; timer_seq = seq }) e.rep_timers;
    }

module _ {ℓ} {A : Type ℓ} {W : Type 0} (call : A → EventBase A × W → EventBase A × W) where
  -- An entry that was erased meanwhile is a dangling pointer.
  abbrev pub repeat_found : Option (TimerRepeatable A) → EventBase A × W → Outcome (EventBase A × W)
  repeat_found none s = err null_pointer
  repeat_found (some r) (e, w) = ok (call r.cb (again r e, w))

  unfoldable pub perform : Work A → EventBase A × W → Outcome (EventBase A × W)
  unfolding add_timer
  perform (once a) s = ok (call a s)
  perform (repeated id) (e, w) = repeat_found (find id e.rep_timers) (e, w)

  -- The loop of handleTimeouts, with a bound on its rounds; none says that it still runs.
  abbrev pub next_round :
      (EventBase A × W → Option (Outcome (EventBase A × W)))
      → Outcome (EventBase A × W)
      → Option (Outcome (EventBase A × W))
  next_round more (err x) = some (err x)
  next_round more (ok s) = more s

  -- The first timer runs if it is expired; `more` is the rest of the loop.
  abbrev pub first_timer :
      ℕ
      → (EventBase A × W → Option (Outcome (EventBase A × W)))
      → List (Timer A)
      → EventBase A × W
      → Option (Outcome (EventBase A × W))
  first_timer now more [] s = some (ok s)
  first_timer now more (t ∷ rest) (e, w) =
      if is_expired now t
      then next_round more (perform t.work (record e { timers = rest }, w))
      else some (ok (e, w))

  unfoldable pub handle_timeouts : ℕ → ℕ → EventBase A × W → Option (Outcome (EventBase A × W))
  handle_timeouts now zero s = none
  handle_timeouts now (suc fuel) s = first_timer now (handle_timeouts now fuel) s.0.timers s
