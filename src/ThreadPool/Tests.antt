-- ===== src/ThreadPool/Tests.antt =====
-- A pool with one core thread: a task comes in, and the pool is stopped.
use tiny_network_repository.Prelude.{ℕ, ◌+◌, ◌*◌, ◌≤◌, ◌≡◌, refl, arith, true, false, [], ◌∷◌, some}
use tiny_network_repository.ThreadPool.{
  ThreadPool, Thread, ThreadState, Place, core_thread, init, running, stopped, top, asleep, busy,
  leaving, create, start, stop, enqueue_check, advance_at,
}
use tiny_network_repository.ThreadPool.Steps.{
  tally, Run, Reach, here, next, checks, puts, moves, after_put,
}
use tiny_network_repository.ThreadPool.Counts.{IsConsistent, is_live}
use tiny_network_repository.ThreadPool.Started.{idle, config_of, started-IsConsistent}
use tiny_network_repository.ThreadPool.Shutdown.{parts}
use tiny_network_repository.ThreadPool.Completed.{shutdown_completes}
use tiny_network_repository.ThreadPool.Drained.{stopped_run, shutdown_ends, shutdown_drains}

abbrev pool : ThreadPool ℕ
pool = start (create 1 2 60 100)

-- All threads are busy at the start, so that the first task adds a thread.
grown : (enqueue_check 7 pool).0.total_threads_num ≡ 2
unfolding enqueue_check start create
grown = refl

abbrev tested : Run ℕ
tested = record { pool = (enqueue_check 7 pool).0; accepted = []; taken = [] }

entered : Reach (idle pool) (after_put 7 [] tested)
unfolding enqueue_check start create
entered = next (next here (checks 7)) (puts 7 [] [] refl)

started-IsConsistent_example : IsConsistent (config_of 1 2 60 100) (after_put 7 [] tested)
started-IsConsistent_example = started-IsConsistent 1 2 60 100 entered

abbrev core_at : ThreadState → Place ℕ → Thread ℕ
core_at s p = record { flag = core_thread; state = s; place = p }

-- One core thread sleeps, and a task is in the queue.
abbrev waiting_task : Run ℕ
waiting_task = record {
  pool = record {
    config = config_of 1 2 60 100;
    tasks = 7 ∷ [];
    wait_threads_num = 1;
    total_threads_num = 1;
    stop_flag = false;
    threads = core_at init asleep ∷ [];
    entering = [];
  };
  accepted = 7 ∷ [];
  taken = [];
}

waiting_task-IsConsistent : IsConsistent (config_of 1 2 60 100) waiting_task
waiting_task-IsConsistent = record {
  waits = refl;
  lives = refl;
  ordered = refl;
  same_config = refl;
  bound = omega arith;
  core_stays = λ runs. refl;
}

abbrev finished : Run ℕ
finished = record {
  pool = record {
    config = config_of 1 2 60 100;
    tasks = [];
    wait_threads_num = 0;
    total_threads_num = 0;
    stop_flag = true;
    threads = core_at stopped Place.gone ∷ [];
    entering = [];
  };
  accepted = 7 ∷ [];
  taken = 7 ∷ [];
}

-- It takes the task, runs it, sleeps, wakes, and ends.
ended : Reach (stopped_run waiting_task) finished
unfolding stop advance_at
ended =
    next
      (next
        (next
          (next (next here (moves (core_at init asleep) [] [] refl))
            (moves (core_at running (busy (some 7))) [] [] refl))
          (moves (core_at running top) [] [] refl))
        (moves (core_at running asleep) [] [] refl))
      (moves (core_at stopped leaving) [] [] refl)

shutdown_ends_example : parts ended ≤ 4 * (1 + 1)
shutdown_ends_example =
    shutdown_ends (config_of 1 2 60 100) waiting_task waiting_task-IsConsistent refl refl ended

shutdown_drains_example : (finished.pool.tasks ≡ []) × (finished.taken ≡ 7 ∷ [])
shutdown_drains_example =
    shutdown_drains (config_of 1 2 60 100) waiting_task waiting_task-IsConsistent refl refl ended
      (omega arith) refl

shutdown_completes_example :
    (u : Run ℕ) × Reach (stopped_run waiting_task) u
    × (tally is_live u.pool.threads ≡ 0)
    × (u.pool.tasks ≡ [])
    × (u.taken ≡ 7 ∷ [])
shutdown_completes_example =
    shutdown_completes (config_of 1 2 60 100) waiting_task waiting_task-IsConsistent refl refl here
      (omega arith)
