-- ===== src/ThreadPool/Drained.antt =====
-- A pool that is stopped, from any state that it can be in.
use tiny_network_repository.Prelude.{
  ◌+◌, ◌*◌, ◌≡◌, ◌≤◌, ◌<◌, refl, sym, ◌∙◌, ap, arith, false, List, [], ◌∷◌, ◌++◌, length,
  append-nil,
}
use tiny_network_repository.ThreadPool.{
  ThreadPoolConfig, Thread, Place, top, asleep, busy, leaving, gone, stop,
}
use tiny_network_repository.ThreadPool.Steps.{Run, Reach, here, next, stops, tally}
use tiny_network_repository.ThreadPool.Counts.{
  IsConsistent, Reach-IsConsistent, is_live, is_core_out,
}
use tiny_network_repository.ThreadPool.Shutdown.{IsQuiet, Reach-Near, parts, is_core, rank, rank_at}

-- `stop()` on the pool.
abbrev pub stopped_run {ℓ} : {A : Type ℓ} → Run A → Run A
stopped_run r = record r { pool = stop r.pool }

rank_bound {ℓ} : {A : Type ℓ} (pl : Place A) → rank_at pl ≤ 4
rank_bound top = omega arith
rank_bound asleep = omega arith
rank_bound (busy o) = omega arith
rank_bound leaving = omega arith
rank_bound gone = omega arith

tally-rank {ℓ} : {A : Type ℓ} (ts : List (Thread A)) → tally rank ts ≤ 4 * length ts
tally-rank [] = omega arith
tally-rank (t ∷ ts) = omega (arith, rank_bound t.place, tally-rank ts)

core_gone {ℓ} : {A : Type ℓ} (t : Thread A) → is_live t ≡ 0 → is_core t ≤ is_core_out t
core_gone t h = ground arith

all_gone {ℓ} :
    {A : Type ℓ} (ts : List (Thread A))
    → tally is_live ts ≡ 0
    → tally is_core ts ≤ tally is_core_out ts
all_gone [] h = omega arith
all_gone (t ∷ ts) h = omega (arith, core_gone t (omega arith), all_gone ts (omega arith))

empty_of_length {ℓ} : {A : Type ℓ} (xs : List A) → length xs ≡ 0 → xs ≡ []
empty_of_length [] h = refl
empty_of_length (x ∷ xs) h = absurd (omega arith)

module _ {ℓ} {A : Type ℓ} (c : ThreadPoolConfig) (r : Run A) (v : IsConsistent c r)
    (runs : r.pool.stop_flag ≡ false) (none_enters : r.pool.entering ≡ []) where
  pub quiet : IsQuiet (tally is_core r.pool.threads) r.accepted (stopped_run r)
  unfolding stop
  quiet = record {
    stopped = refl;
    none_enters = none_enters;
    cores = refl;
    same = refl;
    drained = λ some_out. absurd (omega (arith, v.core_stays runs));
  }

  -- After `stop` of a pool that is as a started one can be and was not stopped (exact counters, the
  -- tasks in order, core threads in their loops), while no task stands between the two parts of
  -- enqueue: whatever order the threads run in, all of them together run at most four parts for
  -- each task of the queue and four for each thread.
  pub shutdown_ends :
      {s : Run A} (reach : Reach (stopped_run r) s)
      → parts reach ≤ 4 * (length r.pool.tasks + length r.pool.threads)
  unfolding stop
  shutdown_ends reach =
      let (q, near) = Reach-Near _ _ reach quiet in omega (arith, near, tally-rank r.pool.threads)

  -- After `stop` of a pool that is as a started one can be and was not stopped (exact counters, the
  -- tasks in order, core threads in their loops), while no task stands between the two parts of
  -- enqueue, and with at least one core thread: when all threads came to their end, the queue is
  -- empty, and the tasks that threads took are all that were accepted, in order.
  pub shutdown_drains :
      {s : Run A}
      → Reach (stopped_run r) s
      → 0 < tally is_core r.pool.threads
      → tally is_live s.pool.threads ≡ 0
      → (s.pool.tasks ≡ []) × (s.taken ≡ r.accepted)
  shutdown_drains {s} reach some_core over =
      let (q, near) = Reach-Near _ _ reach quiet in
      let out : 0 < tally is_core_out s.pool.threads =
        omega (arith, q.cores, all_gone s.pool.threads over) in
      let empty = empty_of_length s.pool.tasks (q.drained out) in
      let still = Reach-IsConsistent c reach (Reach-IsConsistent c (next here stops) v) in
      (empty, sym (append-nil s.taken) ∙ ap (◌++◌ s.taken) (sym empty) ∙ sym still.ordered ∙ q.same)
