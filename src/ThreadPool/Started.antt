-- ===== src/ThreadPool/Started.antt =====
-- A pool from its start on.
use tiny_network_repository.Prelude.{ℕ, zero, suc, ◌+◌, ◌≤◌, refl, arith, [], ◌∷◌, max}
use tiny_network_repository.ThreadPool.{
  ThreadPool, ThreadPoolConfig, Thread, core_thread, init, top, create, start, add_threads,
  add_thread_by_flag,
}
use tiny_network_repository.ThreadPool.Steps.{Run, Reach, tally-append}
use tiny_network_repository.ThreadPool.Counts.{
  IsConsistent, Reach-IsConsistent, is_waiting, is_live, is_core_out,
}

-- The pool before any task.
abbrev pub idle {ℓ} : {A : Type ℓ} → ThreadPool A → Run A
idle p = record { pool = p; accepted = []; taken = [] }

abbrev pub config_of : ℕ → ℕ → ℕ → ℕ → ThreadPoolConfig
config_of core limit timeout maxtasks = record {
  core_threads = core;
  max_threads = limit;
  recycle_timeout = timeout;
  maxtasks = maxtasks;
}

module _ {ℓ} {A : Type ℓ} (c : ThreadPoolConfig) where
  add-IsConsistent :
      (p : ThreadPool A)
      → p.total_threads_num + 1 ≤ max c.core_threads c.max_threads
      → IsConsistent c (idle p)
      → IsConsistent c (idle (add_thread_by_flag core_thread p))
  unfolding add_thread_by_flag
  add-IsConsistent p room v =
      let new : Thread A = record { flag = core_thread; state = init; place = top } in
      let w = tally-append is_waiting p.threads (new ∷ []) in
      let l = tally-append is_live p.threads (new ∷ []) in
      let o = tally-append is_core_out p.threads (new ∷ []) in
      record {
        waits = omega (arith, v.waits, w);
        lives = omega (arith, v.lives, l);
        ordered = v.ordered;
        same_config = v.same_config;
        bound = room;
        core_stays = λ runs. omega (arith, v.core_stays runs, o);
      }

  add_threads-IsConsistent :
      (n : ℕ) (p : ThreadPool A)
      → p.total_threads_num + n ≤ max c.core_threads c.max_threads
      → IsConsistent c (idle p)
      → IsConsistent c (idle (add_threads n p))
  unfolding add_thread_by_flag
  add_threads-IsConsistent zero p room v = v
  add_threads-IsConsistent (suc n) p room v =
      add_threads-IsConsistent n (add_thread_by_flag core_thread p) (omega arith)
        (add-IsConsistent p (omega arith) v)

-- After any steps of the threads, of enqueue and of stop from a new pool that was started, the
-- counter of waiting threads is the number of threads in their wait, the counter of all threads is
-- the number of those that did not end, which is at most the larger of the two configured numbers;
-- the tasks that were accepted are those that threads took, followed by those in the queue, in
-- order; the configuration is what it was; and while the pool was not stopped no core thread left
-- its loop.
pub started-IsConsistent {ℓ} :
    {A : Type ℓ} (core limit timeout maxtasks : ℕ) {r : Run A}
    → Reach (idle (start (create core limit timeout maxtasks))) r
    → IsConsistent (config_of core limit timeout maxtasks) r
unfolding start create
started-IsConsistent core limit timeout maxtasks reach =
    let c = config_of core limit timeout maxtasks in
    Reach-IsConsistent c reach (
      add_threads-IsConsistent c core (create core limit timeout maxtasks) (omega arith) (record {
        waits = refl;
        lives = refl;
        ordered = refl;
        same_config = refl;
        bound = omega arith;
        core_stays = λ runs. refl;
      }))
