-- ===== src/ThreadPool/Counts.antt =====
-- The counters of the pool count its threads, the queue is first in, first out, and core threads
-- stay until the pool is stopped.
use tiny_network_repository.Prelude.{
  ℕ, ◌+◌, ◌-◌, ◌≡◌, ◌≤◌, refl, sym, ◌∙◌, ap, arith, false, List, [], ◌∷◌, ◌++◌, max, if◌then◌else◌,
  append_assoc,
}
use tiny_network_repository.ThreadPool.{
  ThreadPool, Thread, ThreadFlag, Place, top, asleep, busy, leaving, gone, core_thread,
  extend_thread, is_stop, init, ThreadPoolConfig, ThreadState, advance, advance_at, enqueue_check,
  enqueue_put, stop, wake, core_wake, extend_wake,
}
use tiny_network_repository.ThreadPool.Steps.{
  Run, Step, checks, puts, stops, moves, Reach, here, next, tally, tally-append, takes, task_of,
  after_move,
}

-- Whether a thread waits, whether it is counted, and whether it is a core thread behind its loop.
abbrev pub waits_at {ℓ} : {A : Type ℓ} → Place A → ℕ
waits_at asleep = 1
waits_at top = 0
waits_at (busy o) = 0
waits_at leaving = 0
waits_at gone = 0

abbrev pub lives_at {ℓ} : {A : Type ℓ} → Place A → ℕ
lives_at gone = 0
lives_at top = 1
lives_at asleep = 1
lives_at (busy o) = 1
lives_at leaving = 1

abbrev pub left_at {ℓ} : {A : Type ℓ} → Place A → ℕ
left_at leaving = 1
left_at gone = 1
left_at top = 0
left_at asleep = 0
left_at (busy o) = 0

abbrev pub is_waiting {ℓ} : {A : Type ℓ} → Thread A → ℕ
is_waiting t = waits_at t.place

abbrev pub is_live {ℓ} : {A : Type ℓ} → Thread A → ℕ
is_live t = lives_at t.place

wake_lem {ℓ} :
    {A : Type ℓ} (f : ThreadFlag) (t : Thread A) (p : ThreadPool A)
    → let (t', p') = wake f t p in
      (p'.wait_threads_num ≡ p.wait_threads_num)
      × (p'.total_threads_num ≡ p.total_threads_num)
      × (waits_at t'.place ≡ 0)
      × (lives_at t'.place ≡ 1)
      × (p.tasks ≡ task_of t'.place ++ p'.tasks)
unfolding core_wake extend_wake
wake_lem core_thread t p = ground arith
wake_lem extend_thread t p = ground arith

wake_keeps {ℓ} :
    {A : Type ℓ} (f : ThreadFlag) (t : Thread A) (p : ThreadPool A)
    → let (t', p') = wake f t p in
      (t'.flag ≡ t.flag)
      × (p'.stop_flag ≡ p.stop_flag)
      × (p'.config ≡ p.config)
      × (p'.entering ≡ p.entering)
unfolding core_wake extend_wake
wake_keeps core_thread t p = ground arith
wake_keeps extend_thread t p = ground arith

-- What a part of a thread does to the counters and to the queue.
advance_lem {ℓ} :
    {A : Type ℓ} (pl : Place A) (t : Thread A) (p : ThreadPool A)
    → t.place ≡ pl
    → waits_at pl ≤ p.wait_threads_num
    → lives_at pl ≤ p.total_threads_num
    → let (t', p') = advance_at pl t p in
      (p'.wait_threads_num + waits_at pl ≡ p.wait_threads_num + waits_at t'.place)
      × (p'.total_threads_num + lives_at pl ≡ p.total_threads_num + lives_at t'.place)
      × (lives_at t'.place ≤ lives_at pl)
      × (p.tasks ≡ takes pl t'.place ++ p'.tasks)
unfolding advance_at
advance_lem top t p at_pl w l = ground arith
advance_lem asleep t p at_pl w l =
    let (a, b, c, d, e) =
      wake_lem t.flag t (record p { wait_threads_num = p.wait_threads_num - 1 }) in
    ground (arith, a, b, c, d, e)
advance_lem (busy o) t p at_pl w l = ground arith
advance_lem leaving t p at_pl w l = ground arith
advance_lem gone t p at_pl w l = ground arith

-- Whether a core thread has stopped.
abbrev pub core_out {ℓ} : {A : Type ℓ} → ThreadFlag → ThreadState → Place A → ℕ
core_out extend_thread s pl = 0
core_out core_thread s pl = if is_stop s then 1 else left_at pl

abbrev pub is_core_out {ℓ} : {A : Type ℓ} → Thread A → ℕ
is_core_out t = core_out t.flag t.state t.place

-- What a part of a thread leaves alone.
pub advance_keeps {ℓ} :
    {A : Type ℓ} (pl : Place A) (t : Thread A) (p : ThreadPool A)
    → let (t', p') = advance_at pl t p in
      (t'.flag ≡ t.flag)
      × (p'.stop_flag ≡ p.stop_flag)
      × (p'.config ≡ p.config)
      × (p'.entering ≡ p.entering)
unfolding advance_at
advance_keeps top t p = ground arith
advance_keeps asleep t p =
    wake_keeps t.flag t (record p { wait_threads_num = p.wait_threads_num - 1 })
advance_keeps (busy o) t p = ground arith
advance_keeps leaving t p = ground arith
advance_keeps gone t p = ground arith

-- While the pool is not stopped, no core thread stops.
core_stays_in {ℓ} :
    {A : Type ℓ} (pl : Place A) (t : Thread A) (p : ThreadPool A)
    → t.place ≡ pl
    → p.stop_flag ≡ false
    → is_core_out t ≡ 0
    → is_core_out (advance_at pl t p).0 ≡ 0
unfolding advance_at core_wake extend_wake
core_stays_in top t p at_pl runs h = ground arith
core_stays_in asleep t p at_pl runs h = ground arith
core_stays_in (busy o) t p at_pl runs h = ground arith
core_stays_in leaving t p at_pl runs h = ground arith
core_stays_in gone t p at_pl runs h = ground arith

-- Both counters are exact, there are no more threads than the larger of the two limits, the queue
-- holds what was accepted and not taken, in order, and core threads stop only after `stop`.
pub record IsConsistent {ℓ} {A : Type ℓ} (c : ThreadPoolConfig) (r : Run A) : Type ℓ where
  pub waits : r.pool.wait_threads_num ≡ tally is_waiting r.pool.threads
  pub lives : r.pool.total_threads_num ≡ tally is_live r.pool.threads
  pub ordered : r.accepted ≡ r.taken ++ r.pool.tasks
  pub same_config : r.pool.config ≡ c
  pub bound : r.pool.total_threads_num ≤ max c.core_threads c.max_threads
  pub core_stays : r.pool.stop_flag ≡ false → tally is_core_out r.pool.threads ≡ 0

module _ {ℓ} {A : Type ℓ} (c : ThreadPoolConfig) where
  moves-IsConsistent :
      (r : Run A) (t : Thread A) (xs ys : List (Thread A))
      → r.pool.threads ≡ xs ++ (t ∷ ys)
      → IsConsistent c r
      → IsConsistent c (after_move xs t ys r)
  moves-IsConsistent r t xs ys e v =
      let p = r.pool in
      let (t', p') = advance t p in
      let split = λ (f : Thread A → ℕ). ap (tally f) e ∙ tally-append f xs (t ∷ ys) in
      let joined = λ (f : Thread A → ℕ). tally-append f xs (t' ∷ ys) in
      let w = split is_waiting in
      let l = split is_live in
      let o = split is_core_out in
      let (waits', lives', fewer, tasks') =
        advance_lem t.place t p refl (omega (arith, v.waits, w)) (omega (arith, v.lives, l)) in
      let (flag', stop', config', entering') = advance_keeps t.place t p in
      record {
        waits = omega (arith, v.waits, w, waits', joined is_waiting);
        lives = omega (arith, v.lives, l, lives', joined is_live);
        ordered =
            v.ordered
            ∙ ap (◌++◌ r.taken) tasks'
            ∙ sym (append_assoc r.taken (takes t.place t'.place) p'.tasks);
        same_config = config' ∙ v.same_config;
        bound = omega (arith, v.bound, lives', fewer);
        core_stays = λ runs.
            let before = v.core_stays (sym stop' ∙ runs) in
            let still =
              core_stays_in t.place t p refl (sym stop' ∙ runs) (omega (arith, before, o)) in
            omega (arith, before, o, still, joined is_core_out);
      }

  checks-IsConsistent :
      (r : Run A) (a : A)
      → IsConsistent c r
      → IsConsistent c (record r { pool = (enqueue_check a r.pool).0 })
  unfolding enqueue_check
  checks-IsConsistent r a v =
      let new : Thread A = record { flag = extend_thread; state = init; place = top } in
      let joined = λ (f : Thread A → ℕ). tally-append f r.pool.threads (new ∷ []) in
      let limit = ap (λ d. d.max_threads) v.same_config in
      let w = joined is_waiting in
      let l = joined is_live in
      let o = joined is_core_out in
      record {
        waits = ground (arith, w, v.waits);
        lives = ground (arith, l, v.lives);
        ordered = ground (arith, v.ordered);
        same_config = ground (arith, v.same_config);
        bound = ground (arith, v.bound, limit);
        core_stays = λ runs. ground (arith, o, v.core_stays);
      }

  Step-IsConsistent : {r s : Run A} → Step r s → IsConsistent c r → IsConsistent c s
  unfolding enqueue_put stop
  Step-IsConsistent (checks a) v = checks-IsConsistent _ a v
  Step-IsConsistent (puts a xs ys e) v = record {
    waits = v.waits;
    lives = v.lives;
    ordered = ap (λ l. l ++ (a ∷ [])) v.ordered ∙ append_assoc _ _ (a ∷ []);
    same_config = v.same_config;
    bound = v.bound;
    core_stays = v.core_stays;
  }
  Step-IsConsistent stops v = record {
    waits = v.waits;
    lives = v.lives;
    ordered = v.ordered;
    same_config = v.same_config;
    bound = v.bound;
    core_stays = λ runs. cc;
  }
  Step-IsConsistent (moves t xs ys e) v = moves-IsConsistent _ t xs ys e v

  pub Reach-IsConsistent : {r s : Run A} → Reach r s → IsConsistent c r → IsConsistent c s
  Reach-IsConsistent here v = v
  Reach-IsConsistent (next reach step) v = Step-IsConsistent step (Reach-IsConsistent reach v)
