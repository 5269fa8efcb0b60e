-- ===== src/ThreadPool/Completed.antt =====
-- A stopped pool comes to its end from wherever it is.
use tiny_network_repository.Prelude.{
  ℕ, zero, suc, ◌≡◌, ◌<◌, ◌⊎◌, inl, inr, refl, arith, ap, false, List, [], ◌∷◌, ◌++◌,
}
use tiny_network_repository.ThreadPool.{ThreadPoolConfig, Thread}
use tiny_network_repository.ThreadPool.Steps.{Run, Reach, here, next, moves, tally}
use tiny_network_repository.ThreadPool.Counts.{IsConsistent, is_live}
use tiny_network_repository.ThreadPool.Shutdown.{IsQuiet, moves-Near, Reach-Near, is_core, effort}
use tiny_network_repository.ThreadPool.Drained.{stopped_run, quiet, shutdown_drains}

zero_or_more : (n : ℕ) → (n ≡ 0) ⊎ (0 < n)
zero_or_more zero = inl refl
zero_or_more (suc n) = inr (omega arith)

-- A thread that did not end, among the others.
abbrev Chosen {ℓ} : {A : Type ℓ} → List (Thread A) → Type ℓ
Chosen {A = A} ts =
    (xs : List (Thread A)) × (t : Thread A) × (ys : List (Thread A)) × (ts ≡ xs ++ (t ∷ ys))
    × (0 < is_live t)

live_thread {ℓ} : {A : Type ℓ} (ts : List (Thread A)) → 0 < tally is_live ts → Chosen ts
live_thread [] h = absurd (omega arith)
live_thread (t ∷ ts) h = elim (zero_or_more (is_live t)) [
  | inr live ↦ ([], t, ts, refl, live)
  | inl over ↦
      let (xs, u, ys, e, live) = live_thread ts (omega (arith, h, over)) in
      (t ∷ xs, u, ys, ap (◌∷◌ t) e, live)
]

Reach-trans {ℓ} : {A : Type ℓ} {r s u : Run A} → Reach r s → Reach s u → Reach r u
Reach-trans reach here = reach
Reach-trans reach (next more step) = next (Reach-trans reach more) step

run_out {ℓ} :
    {A : Type ℓ} (n : ℕ) (all : List A) (m : ℕ) {r s : Run A}
    → Reach r s
    → IsQuiet n all s
    → effort s.pool < m
    → (u : Run A) × Reach r u × (tally is_live u.pool.threads ≡ 0)
run_out n all zero reach q few = absurd (omega arith)
run_out n all (suc m) {s = s} reach q few = elim (zero_or_more (tally is_live s.pool.threads)) [
  | inl over ↦ (s, reach, over)
  | inr some_live ↦
      let (xs, t, ys, e, live) = live_thread s.pool.threads some_live in
      let (q', near) = moves-Near n all s t xs ys e q in
      run_out n all m (next reach (moves t xs ys e)) q' (omega (arith, near, live, few))
]

module _ {ℓ} {A : Type ℓ} (c : ThreadPoolConfig) (r : Run A) (v : IsConsistent c r)
    (runs : r.pool.stop_flag ≡ false) (none_enters : r.pool.entering ≡ []) where
  -- After `stop` of a pool that is as a started one can be and was not stopped (exact counters, the
  -- tasks in order, core threads in their loops), while no task stands between the two parts of
  -- enqueue, and with at least one core thread: wherever it gets from there, it can go on until all
  -- threads came to their end, the queue is empty, and the tasks that threads took are all that
  -- were accepted, in order.
  pub shutdown_completes :
      {s : Run A}
      → Reach (stopped_run r) s
      → 0 < tally is_core r.pool.threads
      → (u : Run A) × Reach s u
        × (tally is_live u.pool.threads ≡ 0)
        × (u.pool.tasks ≡ [])
        × (u.taken ≡ r.accepted)
  shutdown_completes {s} reach some_core =
      let n = tally is_core r.pool.threads in
      let (q, near) = Reach-Near n r.accepted reach (quiet c r v runs none_enters) in
      let (u, more, over) = run_out n r.accepted (suc (effort s.pool)) here q (omega arith) in
      let (empty, all) =
        shutdown_drains c r v runs none_enters (Reach-trans reach more) some_core over in
      (u, more, over, empty, all)
