-- ===== src/EventLoop/Tests.antt =====
-- A loop with a timer, a task that another thread added, and a task that ends the loop.
use tiny_network_repository.Prelude.{
  ℕ, ◌+◌, ◌^◌, ◌≡◌, refl, arith, min, true, false, List, [], ◌∷◌, ◌++◌, some, none, Option, length,
}
use tiny_network_repository.Prelude.Outcome.{ok}
use tiny_network_repository.EventBase.{EventBase, once, perform}
use tiny_network_repository.EventLoop.{
  EventLoop, State, Round, init_loop, run_at_refreshed, run_after, add_task, exit_loop, on_wake_up,
  one_byte, loop_once, loop,
}
use tiny_network_repository.EventLoop.Timeouts.{IsRightWait, run_at_refreshed_lem}
use tiny_network_repository.EventLoop.WakeUps.{
  Adding, Event, happen, begins, goes_on, moved, woken, happens, IsAwake, wake_up-IsAwake,
  on_wake_up_lem,
}
use tiny_network_repository.EventLoop.Exit.{cleared, untimed, loop_exits}

abbrev base : EventBase ℕ
base = record {
  exit_flag = false;
  timer_seq = 2;
  timers =
      record { at = 500; seq = 1; work = once 5 }
      ∷ record { at = 900; seq = 2; work = once 9 }
      ∷ [];
  rep_timers = [];
}

abbrev fresh_loop : EventLoop ℕ
fresh_loop = init_loop true

run_at_refreshed_lem_example :
    let ((e', l'), id) = run_at_refreshed 100 300 3 0 (base, fresh_loop) in
    IsRightWait 100 10000 e'.timers (min 10000 l'.next_time_out)
run_at_refreshed_lem_example =
    run_at_refreshed_lem 100 10000 (omega arith) 300 0 3 base fresh_loop refl ((refl, tt), (tt, tt))
      (omega arith, (omega arith, tt)) (omega arith) (omega arith)
      ((omega arith, omega arith), ((omega arith, omega arith), tt))

-- The timer for 300 leaves 200 milliseconds; after 130 of them there are 70.
waits : (run_at_refreshed 100 300 3 0 (base, fresh_loop)).0.1.next_time_out ≡ 200
unfolding run_at_refreshed
waits = refl

-- The difference does not fit an int: 2 ^ 32 + 5 milliseconds are taken for 5, and 2 ^ 31 for none.
cut_short :
    (run_at_refreshed 100
      (2 ^ 32 + 105)
      3
      0
      (record base { timers = [] }, fresh_loop)).0.1.next_time_out
    ≡ 5
unfolding run_at_refreshed
cut_short = refl

no_wait :
    (run_after 100 100 (2 ^ 31) 3 0 (record base { timers = [] }, fresh_loop)).0.1.next_time_out ≡ 0
unfolding run_after
no_wait = refl

-- The first thread has added 7, and the second has pushed 8 and has yet to write when the callback
-- runs. While 7 runs, the second writes, and a third thread pushes 9, which the callback takes too.
abbrev crossing : List (Event ℕ)
crossing =
    moved (begins 7)
    ∷ moved (goes_on 0)
    ∷ moved (goes_on 0)
    ∷ moved (begins 8)
    ∷ moved (goes_on 0)
    ∷ woken ((goes_on 0 ∷ begins 9 ∷ goes_on 0 ∷ []) ∷ [])
    ∷ moved (goes_on 0)
    ∷ woken []
    ∷ []

wake_up-IsAwake_example :
    (s : State ℕ (List (Adding ℕ))) × (happens crossing (some (base, (init_loop true, [])))
      ≡ some s)
    × IsAwake s.1
wake_up-IsAwake_example = wake_up-IsAwake crossing base

-- The items of the queue and the bytes of the pipe.
abbrev ends : Option (State ℕ (List (Adding ℕ))) → List (ℕ × ℕ)
ends none = []
ends (some (e, (l, ts))) = (length l.tasks.items, l.pipe) ∷ []

-- The third thread wrote its byte after its task was taken.
crossed : ends (happens crossing (some (base, (init_loop true, [])))) ≡ (0, 1) ∷ []
unfolding happen init_loop
crossed = refl

-- A task adds its number to a log.
abbrev log_task : ℕ → State ℕ (List ℕ) → State ℕ (List ℕ)
log_task a (e, (l, w)) = (e, (l, w ++ (a ∷ [])))

abbrev two_added : EventLoop ℕ
two_added = record {
  next_time_out = 400;
  tasks = record { items = 7 ∷ 8 ∷ []; capacity = 0; exit_flag = false };
  pipe = 2;
  has_channel = true;
}

abbrev in_turn : List (EventLoop ℕ → EventLoop ℕ) → EventLoop ℕ → EventLoop ℕ
in_turn [] l = l
in_turn (f ∷ fs) l = in_turn fs (f l)

adds :
    in_turn
      (add_task true 8)
      (in_turn (add_task true 7) (record fresh_loop { next_time_out = 400 }))
    ≡ two_added
unfolding add_task init_loop
adds = refl

on_wake_up_lem_example :
    on_wake_up log_task 3 one_byte (base, (two_added, []))
    ≡ some (
      base,
      (record two_added { pipe = 1; tasks = record two_added.tasks { items = [] } }, 7 ∷ 8 ∷ []),
    )
on_wake_up_lem_example =
    on_wake_up_lem log_task (λ a w. w ++ (a ∷ [])) (λ a e l w. refl) 3 base two_added []
      (omega arith)

-- A round in which a handler ends the loop, and one without events.
abbrev ending : Round (State ℕ (List ℕ))
ending = record {
  poll = λ wait (s : State ℕ (List ℕ)). let (e, l) = exit_loop true (s.0, s.1.0) in (e, (l, s.1.1));
  now = 510;
  now' = 520;
}

abbrev quiet : Round (State ℕ (List ℕ))
quiet = record { poll = λ wait s. s; now = 530; now' = 540 }

-- The timer for 500 ran, the one for 900 did not.
abbrev ended : State ℕ (List ℕ)
ended = (
  record base { exit_flag = true; timers = record { at = 900; seq = 2; work = once 9 } ∷ [] },
  (record two_added { pipe = 3; next_time_out = 380 }, 5 ∷ []),
)

one_round : loop_once log_task 2 10000 ending (base, (two_added, [])) ≡ some (ok ended)
unfolding loop_once exit_loop perform
one_round = refl

loop_exits_example :
    loop log_task 2 quiet (ending ∷ quiet ∷ []) (base, (two_added, []))
    ≡ some (ok (untimed (cleared ended)))
loop_exits_example =
    loop_exits log_task 1 quiet ending (quiet ∷ []) (base, (two_added, [])) ended refl one_round
      refl refl
