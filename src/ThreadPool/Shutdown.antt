-- ===== src/ThreadPool/Shutdown.antt =====
-- What happens after `stop`: the threads end, and the core threads empty the queue first.
use tiny_network_repository.Prelude.{
  ℕ, ◌+◌, ◌*◌, ◌≡◌, ◌≤◌, ◌<◌, ◌⊎◌, inl, inr, refl, sym, ◌∙◌, ap, arith, true, List, [], ◌∷◌, ◌++◌,
  length,
}
use tiny_network_repository.ThreadPool.{
  ThreadPool, Thread, ThreadFlag, Place, top, asleep, busy, leaving, gone, core_thread,
  extend_thread, advance, advance_at, enqueue_check, enqueue_put, stop, core_wake, extend_wake,
}
use tiny_network_repository.ThreadPool.Steps.{
  Run, Step, checks, puts, stops, moves, Reach, here, next, tally, tally-append, after_move,
}
use tiny_network_repository.ThreadPool.Counts.{is_live, lives_at, is_core_out, advance_keeps}

-- How many parts a thread can still have without a further task.
abbrev pub rank_at {ℓ} : {A : Type ℓ} → Place A → ℕ
rank_at (busy o) = 4
rank_at top = 3
rank_at asleep = 2
rank_at leaving = 1
rank_at gone = 0

abbrev pub rank {ℓ} : {A : Type ℓ} → Thread A → ℕ
rank t = rank_at t.place

abbrev pub core_at : ThreadFlag → ℕ
core_at core_thread = 1
core_at extend_thread = 0

abbrev pub is_core {ℓ} : {A : Type ℓ} → Thread A → ℕ
is_core t = core_at t.flag

abbrev pub effort {ℓ} : {A : Type ℓ} → ThreadPool A → ℕ
effort p = 4 * length p.tasks + tally rank p.threads

-- After `stop` each part of a thread brings it nearer to its end, and a core thread ends its loop
-- with the queue empty.
part_lem {ℓ} :
    {A : Type ℓ} (pl : Place A) (t : Thread A) (p : ThreadPool A)
    → t.place ≡ pl
    → p.stop_flag ≡ true
    → let (t', p') = advance_at pl t p in
      (4 * length p'.tasks + rank t' + lives_at pl ≤ 4 * length p.tasks + rank_at pl)
      × (length p'.tasks ≤ length p.tasks)
      × ((is_core_out t' ≤ is_core_out t) ⊎ (length p'.tasks ≡ 0))
unfolding advance_at core_wake extend_wake
part_lem top t p e s = ground arith
part_lem asleep t p e s = ground arith
part_lem (busy o) t p e s = ground arith
part_lem leaving t p e s = ground arith
part_lem gone t p e s = ground arith

-- The pool is stopped, no caller stands between its test and the lock, `n` threads are core
-- threads, `all` was accepted, and the queue is empty once a core thread has stopped.
pub record IsQuiet {ℓ} {A : Type ℓ} (n : ℕ) (all : List A) (r : Run A) : Type ℓ where
  pub stopped : r.pool.stop_flag ≡ true
  pub none_enters : r.pool.entering ≡ []
  pub cores : tally is_core r.pool.threads ≡ n
  pub same : r.accepted ≡ all
  pub drained : 0 < tally is_core_out r.pool.threads → length r.pool.tasks ≡ 0

-- How many parts of threads a sequence of steps has; a thread at its end has none.
abbrev pub part_of {ℓ} : {A : Type ℓ} {r s : Run A} → Step r s → ℕ
part_of (checks a) = 0
part_of (puts a xs ys e) = 0
part_of stops = 0
part_of (moves t xs ys e) = is_live t

abbrev pub parts {ℓ} : {A : Type ℓ} {r s : Run A} → Reach r s → ℕ
parts here = 0
parts (next reach step) = parts reach + part_of step

module _ {ℓ} {A : Type ℓ} (n : ℕ) (all : List A) where
  abbrev pub Near : Run A → ℕ → Run A → Type ℓ
  Near r k s = IsQuiet n all s × (k + effort s.pool ≤ effort r.pool)

  checks_nothing : (a : A) (p : ThreadPool A) → p.stop_flag ≡ true → (enqueue_check a p).0 ≡ p
  unfolding enqueue_check
  checks_nothing a p s = rw s

  none_there : (a : A) (xs ys : List A) → ¬ ([] ≡ xs ++ (a ∷ ys))
  none_there a [] ys e = cc
  none_there a (x ∷ xs) ys e = cc

  pub moves-Near :
      (r : Run A) (t : Thread A) (xs ys : List (Thread A))
      → r.pool.threads ≡ xs ++ (t ∷ ys)
      → IsQuiet n all r
      → Near r (is_live t) (after_move xs t ys r)
  moves-Near r t xs ys e q =
      let p = r.pool in
      let (t', p') = advance t p in
      let split = λ (f : Thread A → ℕ). ap (tally f) e ∙ tally-append f xs (t ∷ ys) in
      let joined = λ (f : Thread A → ℕ). tally-append f xs (t' ∷ ys) in
      let o = split is_core_out in
      let o' = joined is_core_out in
      let (less, shorter, out) = part_lem t.place t p refl q.stopped in
      let (flag', stop', config', entering') = advance_keeps t.place t p in
      (
        record {
          stopped = stop' ∙ q.stopped;
          none_enters = entering' ∙ q.none_enters;
          cores = omega (arith, q.cores, split is_core, joined is_core, ap core_at flag');
          same = q.same;
          drained = λ some_out. empty_queue p p' t t' some_out o o' shorter out;
        },
        omega (arith, less, split rank, joined rank),
      )
    where
      empty_queue :
          (p p' : ThreadPool A) (t t' : Thread A)
          → 0 < tally is_core_out (xs ++ (t' ∷ ys))
          → tally is_core_out r.pool.threads
            ≡ tally is_core_out xs + (is_core_out t + tally is_core_out ys)
          → tally is_core_out (xs ++ (t' ∷ ys))
            ≡ tally is_core_out xs + (is_core_out t' + tally is_core_out ys)
          → length p'.tasks ≤ length r.pool.tasks
          → (is_core_out t' ≤ is_core_out t) ⊎ (length p'.tasks ≡ 0)
          → length p'.tasks ≡ 0
      empty_queue p p' t t' h o o' shorter (inr done) = done
      empty_queue p p' t t' h o o' shorter (inl no_more) =
          let before = q.drained (omega (arith, h, o, o', no_more)) in
          omega (arith, before, shorter)

  Step-Near : {r s : Run A} (st : Step r s) → IsQuiet n all r → Near r (part_of st) s
  unfolding enqueue_put stop
  Step-Near {r} (checks a) q = rw (checks_nothing a r.pool q.stopped) (q, omega arith)
  Step-Near (puts a xs ys e) q = absurd (none_there a xs ys (sym q.none_enters ∙ e))
  Step-Near {r} stops q = (
    record {
      stopped = refl;
      none_enters = q.none_enters;
      cores = q.cores;
      same = q.same;
      drained = q.drained;
    },
    omega arith,
  )
  Step-Near {r} (moves t xs ys e) q = moves-Near r t xs ys e q

  pub Reach-Near : {r s : Run A} (reach : Reach r s) → IsQuiet n all r → Near r (parts reach) s
  Reach-Near here q = (q, omega arith)
  Reach-Near (next reach st) q =
      let (q', far) = Reach-Near reach q in
      let (q'', near) = Step-Near st q' in (q'', omega (arith, far, near))
