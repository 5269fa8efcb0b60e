-- ===== src/EventBase/Tests.antt =====
-- Runs of the timers, and the theorems at concrete timers.
use tiny_network_repository.Prelude.{ℕ, ◌≡◌, refl, arith, true, false, List, [], ◌∷◌, ◌++◌, some}
use tiny_network_repository.Prelude.Int.{negsuc}
use tiny_network_repository.Prelude.Outcome.{ok}
use tiny_network_repository.EventBase.{
  EventBase, Timer, once, repeated, run_at, cancel, handle_timeouts, perform,
}
use tiny_network_repository.EventBase.Timers.{IsSorted, handle_timeouts_lem}
use tiny_network_repository.EventBase.Repeat.{ticking, catches_up}
use tiny_network_repository.EventBase.Cancel.{cancel-run_at}

abbrev timer : ℕ → ℕ → Timer ℕ
timer at seq = record { at = at; seq = seq; work = once at }

abbrev two_timers : List (Timer ℕ)
two_timers = timer 5 1 ∷ timer 9 2 ∷ []

two_timers-IsSorted : IsSorted two_timers
two_timers-IsSorted = ((refl, tt), (tt, tt))

abbrev base : EventBase ℕ
base = record { exit_flag = false; timer_seq = 2; timers = two_timers; rep_timers = [] }

-- A task adds its number to a log.
abbrev log_task : ℕ → EventBase ℕ × List ℕ → EventBase ℕ × List ℕ
log_task a (e, w) = (e, w ++ (a ∷ []))

handle_timeouts_lem_example :
    handle_timeouts log_task 6 3 (base, [])
    ≡ some (ok (record base { timers = timer 9 2 ∷ [] }, 5 ∷ []))
handle_timeouts_lem_example =
    handle_timeouts_lem log_task (λ a w. w ++ (a ∷ [])) (λ a e w. refl) 6 2 base []
      two_timers-IsSorted ((5, refl), ((9, refl), tt)) (omega arith)

-- A timer every 10 milliseconds from 4 on: at 4 it is entered again for 14.
repeats :
    handle_timeouts log_task 6 4 ((run_at 4 8 10 base).0, [])
    ≡ some (
        ok (
          record (run_at 4 8 10 base).0 {
            timer_seq = 5;
            timers =
                timer 9 2
                ∷ record {
                  at = 14;
                  seq = 5;
                  work = repeated (record { first = negsuc 3; second = 3 });
                }
                ∷ [];
            rep_timers =
                record {
                  id = record { first = negsuc 3; second = 3 };
                  at = 14;
                  interval = 10;
                  timer_at = 14;
                  timer_seq = 5;
                  cb = 8;
                }
                ∷ [];
          },
          8 ∷ 5 ∷ [],
        ))
unfolding run_at handle_timeouts perform
repeats = refl

cancel-run_at_example :
    let (e', id) = run_at 4 8 10 base in
    cancel id e' ≡ ok (record base { timer_seq = e'.timer_seq }, true)
cancel-run_at_example = cancel-run_at 3 10 8 base refl (omega arith, (omega arith, tt))

-- At 26, a timer for every 10 milliseconds from 4 on runs for 4, 14 and 24.
catches_up_example :
    handle_timeouts log_task 26 5
      (ticking false (record { first = negsuc 3; second = 3 }) 10 8 4 4, [])
    ≡ some (ok (ticking false (record { first = negsuc 3; second = 3 }) 10 8 34 7, 8 ∷ 8 ∷ 8 ∷ []))
catches_up_example =
    catches_up false (record { first = negsuc 3; second = 3 }) 10 8 log_task (λ w. w ++ (8 ∷ []))
      (λ e w. refl) 26 3 5 4 4 [] (omega arith) (omega arith) (omega arith) (omega arith)
