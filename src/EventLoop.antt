-- ===== src/EventLoop.antt =====
-- The loop of net/tiny_eventbase.cxx around the timers of EventBase: the timeout for the poller, the
-- task queue and the pipe that wakes the loop up. What the poller does in a round, with the handlers
-- of its events, is an argument, and so is what a task does; each may change the whole state, of
-- which `W` is what the rest of the program keeps. The clock is read once for the timers of a round
-- and once for the next timeout.
pub mod Timeouts
pub mod WakeUps
pub mod Exit
mod Tests
use tiny_network_repository.Prelude.{
  ℕ, zero, suc, ◌+◌, ◌-◌, ◌%◌, ◌^◌, min, Bool, true, false, List, [], ◌∷◌, Option, none, some,
  if◌then◌else◌, ltb, leb,
}
use tiny_network_repository.Prelude.Int.{ℤ, pos, negsuc}
use tiny_network_repository.Prelude.Outcome.{Outcome, ok, err}
use tiny_network_repository.SafeQueue.{SafeQueue, create, push, pop_wait}
use tiny_network_repository.EventBase.{EventBase, Timer, TimerId, run_at, handle_timeouts}

-- `pipe` is the number of bytes in the pipe, and `has_channel` says that its channel is there.
pub record EventLoop (A : Type 0) : Type 0 where
  pub next_time_out : ℕ
  pub tasks : SafeQueue A
  pub pipe : ℕ
  pub has_channel : Bool

-- The constructor and init, where `piped` says whether `pipe` succeeded.
unfoldable pub init_loop : {A : Type 0} → Bool → EventLoop A
unfolding create
init_loop piped = record { next_time_out = 2 ^ 30; tasks = create 0; pipe = 0; has_channel = piped }

-- `tid.first - util::timeMilli()`
abbrev pub difference : ℕ → ℕ → ℤ
difference at now = if leb now at then pos (at - now) else negsuc (now - at - 1)

-- The low 32 bits of a difference.
abbrev pub low_bits : ℤ → ℕ
low_bits (pos n) = n % 2 ^ 32
low_bits (negsuc n) = 2 ^ 32 - 1 - n % 2 ^ 32

-- They are stored in an int, and what is negative then becomes 0.
abbrev pub as_timeout : ℕ → ℕ
as_timeout bits = if ltb bits (2 ^ 31) then bits else 0

unfoldable pub refresh_nearest_timeout :
    {A : Type 0} → ℕ → List (Timer A) → EventLoop A → EventLoop A
refresh_nearest_timeout now [] l = record l { next_time_out = 2 ^ 30 }
refresh_nearest_timeout now (t ∷ ts) l = record l {
  next_time_out = as_timeout (low_bits (difference t.at now));
}

-- runAt, whose timers are those of `run_at`.
unfoldable pub run_at_refreshed :
    {A : Type 0} → ℕ → ℕ → A → ℕ → EventBase A × EventLoop A → (EventBase A × EventLoop A) × TimerId
unfolding run_at refresh_nearest_timeout
run_at_refreshed now milli task interval (e, l) =
    let (e', id) = run_at milli task interval e in
    ((e', if e.exit_flag then l else refresh_nearest_timeout now e'.timers l), id)

-- The clock is read for the time of the timer, and again for the timeout.
unfoldable pub run_after :
    {A : Type 0}
    → ℕ
    → ℕ
    → ℕ
    → A
    → ℕ
    → EventBase A × EventLoop A
    → (EventBase A × EventLoop A) × TimerId
unfolding run_at_refreshed
run_after now now' milli task interval s = run_at_refreshed now' (now + milli) task interval s

-- A write that fails is only reported.
unfoldable pub wake_up : {A : Type 0} → Bool → EventLoop A → EventLoop A
wake_up written l = if written then record l { pipe = l.pipe + 1 } else l

abbrev pub push_task : {A : Type 0} → A → EventLoop A → EventLoop A
push_task task l = record l { tasks = (push task l.tasks).0 }

-- The calls that addTask makes, one after the other. No lock is held between them.
unfoldable pub add_task : {A : Type 0} → Bool → A → List (EventLoop A → EventLoop A)
unfolding wake_up push
add_task written task = push_task task ∷ wake_up written ∷ []

unfoldable pub exit_loop :
    {A : Type 0} → Bool → EventBase A × EventLoop A → EventBase A × EventLoop A
unfolding wake_up
exit_loop written (e, l) = (record e { exit_flag = true }, wake_up written l)

-- What `read` on the pipe returns.
pub data PipeRead : Type 0 where
  one_byte at_end interrupted failed : PipeRead

-- What the poller does with a timeout, and the two readings of the clock.
pub record Round (S : Type 0) : Type 0 where
  pub poll : ℕ → S → S
  pub now : ℕ
  pub now' : ℕ

-- The loop, and what the rest of the program keeps.
abbrev pub Rest : Type 0 → Type 0 → Type 0
Rest A W = EventLoop A × W

abbrev pub State : Type 0 → Type 0 → Type 0
State A W = EventBase A × Rest A W

module _ {A W : Type 0} (call : A → State A W → State A W) where
  abbrev pub after_pop :
      (State A W → Option (State A W))
      → State A W
      → Option (SafeQueue A × Option A)
      → Option (State A W)
  after_pop more (e, (l, w)) none = none
  after_pop more (e, (l, w)) (some (q, none)) = some (e, (record l { tasks = q }, w))
  after_pop more (e, (l, w)) (some (q, some a)) = more (call a (e, (record l { tasks = q }, w)))

  -- `while(m_tasks.popWait(&task, 0)) task();`, with a bound on its rounds.
  unfoldable pub run_tasks : ℕ → State A W → Option (State A W)
  unfolding pop_wait
  run_tasks zero s = none
  run_tasks (suc fuel) s = after_pop (run_tasks fuel) s (pop_wait 0 [] s.1.0.tasks)

  -- The read callback of the pipe's channel.
  unfoldable pub on_wake_up : ℕ → PipeRead → State A W → Option (State A W)
  unfolding run_tasks
  on_wake_up fuel one_byte (e, (l, w)) = run_tasks fuel (e, (record l { pipe = l.pipe - 1 }, w))
  on_wake_up fuel at_end (e, (l, w)) = some (e, (record l { has_channel = false }, w))
  on_wake_up fuel interrupted s = some s
  on_wake_up fuel failed s = some s

  -- The end of handleTimeouts.
  abbrev pub after_timers : ℕ → Option (Outcome (State A W)) → Option (Outcome (State A W))
  after_timers now' none = none
  after_timers now' (some (err x)) = some (err x)
  after_timers now' (some (ok (e, (l, w)))) =
      some (ok (e, (refresh_nearest_timeout now' e.timers l, w)))

  unfoldable pub loop_once : ℕ → ℕ → Round (State A W) → State A W → Option (Outcome (State A W))
  unfolding handle_timeouts refresh_nearest_timeout
  loop_once fuel wait_ms r s =
      after_timers r.now'
        (handle_timeouts call r.now fuel (r.poll (min wait_ms s.1.0.next_time_out) s))

  abbrev pub next_turn :
      (State A W → Option (Outcome (State A W)))
      → Option (Outcome (State A W))
      → Option (Outcome (State A W))
  next_turn more none = none
  next_turn more (some (err x)) = some (err x)
  next_turn more (some (ok s)) = more s

  -- The end of loop: the timers are dropped, and what is ready is handled once more.
  abbrev pub last_turn : ℕ → Round (State A W) → State A W → Option (Outcome (State A W))
  last_turn fuel r (e, rest) = loop_once fuel 0 r (record e { timers = []; rep_timers = [] }, rest)

  -- loop, for the rounds of a list and the round after them; none says that it still runs.
  unfoldable pub loop :
      ℕ → Round (State A W) → List (Round (State A W)) → State A W → Option (Outcome (State A W))
  unfolding loop_once
  loop fuel end [] s = if s.0.exit_flag then last_turn fuel end s else none
  loop fuel end (r ∷ rounds) s =
      let more = loop fuel end rounds in
      if s.0.exit_flag then last_turn fuel end s else next_turn more (loop_once fuel 10000 r s)
