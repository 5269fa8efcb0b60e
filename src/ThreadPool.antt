-- ===== src/ThreadPool.antt =====
-- include/tiny_threadpool.h: a pool of threads, with core threads that stay and threads that are
-- added while all are busy. A thread is where its loop stands: `advance` is its next part, up to
-- the next point where another thread can come between. A wait ends when its predicate holds or
-- with its time limit, so a part of a thread whose predicate does not hold is a time limit. What a
-- task does is not looked at: running it is one part. The counters are natural numbers, since they
-- never fall below 0 (ThreadPool.Counts); a new thread begins after it was counted. enqueue tests
-- `m_stop` before it takes the lock: a task stands in `entering` from the test to the lock.
pub mod Steps
pub mod Counts
pub mod Started
pub mod Shutdown
pub mod Drained
pub mod Completed
mod Tests
use tiny_network_repository.Prelude.{
  ℕ, zero, suc, ◌+◌, ◌-◌, Bool, true, false, not, ◌&&◌, ◌||◌, List, [], ◌∷◌, ◌++◌, Option, none,
  some, if◌then◌else◌, ltb, ◌==◌,
}

pub record ThreadPoolConfig : Type 0 where
  pub core_threads : ℕ
  pub max_threads : ℕ
  pub recycle_timeout : ℕ
  pub maxtasks : ℕ

pub data ThreadFlag : Type 0 where
  core_thread extend_thread : ThreadFlag

pub data ThreadState : Type 0 where
  init waiting running stopped : ThreadState

-- Where the loop of a thread stands: at its top, in the wait for a task, with the task that it took
-- (or none), behind the loop, or at the end.
pub data Place {ℓ} (A : Type ℓ) : Type ℓ where
  top asleep leaving gone : Place A
  busy : Option A → Place A

pub record Thread {ℓ} (A : Type ℓ) : Type ℓ where
  pub flag : ThreadFlag
  pub state : ThreadState
  pub place : Place A

pub record ThreadPool {ℓ} (A : Type ℓ) : Type ℓ where
  pub config : ThreadPoolConfig
  pub tasks : List A
  pub wait_threads_num : ℕ
  pub total_threads_num : ℕ
  pub stop_flag : Bool
  pub threads : List (Thread A)
  pub entering : List A

-- ThreadPool::Create and the constructor
unfoldable pub create {ℓ} : {A : Type ℓ} → ℕ → ℕ → ℕ → ℕ → ThreadPool A
create core_threads max_threads recycle_timeout maxtasks = record {
  config = record {
    core_threads = core_threads;
    max_threads = max_threads;
    recycle_timeout = recycle_timeout;
    maxtasks = maxtasks;
  };
  tasks = [];
  wait_threads_num = 0;
  total_threads_num = 0;
  stop_flag = false;
  threads = [];
  entering = [];
}

abbrev pub is_stop : ThreadState → Bool
is_stop stopped = true
is_stop _ = false

abbrev pub no_tasks {ℓ} : {A : Type ℓ} → List A → Bool
no_tasks [] = true
no_tasks (a ∷ rest) = false

-- The predicate of the wait.
abbrev pub is_ready {ℓ} : {A : Type ℓ} → Thread A → ThreadPool A → Bool
is_ready t p = not (no_tasks p.tasks) || is_stop t.state || p.stop_flag

abbrev pub break_out {ℓ} : {A : Type ℓ} → Thread A → Thread A
break_out t = record t { place = leaving }

-- The front of the queue, if there is one, and the state kRunning.
abbrev pub take_task {ℓ} : {A : Type ℓ} → List A → Thread A → ThreadPool A → Thread A × ThreadPool A
take_task [] t p = (record t { state = running; place = busy none }, p)
take_task (a ∷ rest) t p =
    (record t { state = running; place = busy (some a) }, record p { tasks = rest })

-- A core thread after its wait; `p` has its counter of waiting threads set back.
unfoldable pub core_wake {ℓ} : {A : Type ℓ} → Thread A → ThreadPool A → Thread A × ThreadPool A
core_wake t p =
    if not (is_ready t p)
    then (record t { place = top }, p)
    else if is_stop t.state
    then (break_out t, p)
    else if p.stop_flag && no_tasks p.tasks
    then (break_out (record t { state = stopped }), p)
    else take_task p.tasks t p

-- A thread that is not a core thread after its wait.
unfoldable pub extend_wake {ℓ} : {A : Type ℓ} → Thread A → ThreadPool A → Thread A × ThreadPool A
extend_wake t p =
    let after_wait = if is_ready t p then t.state else stopped in
    let state = if p.stop_flag then stopped else after_wait in
    let t' = record t { state = state } in
    if is_stop state then (break_out t', p) else take_task p.tasks t' p

abbrev pub wake {ℓ} : {A : Type ℓ} → ThreadFlag → Thread A → ThreadPool A → Thread A × ThreadPool A
wake core_thread t p = core_wake t p
wake extend_thread t p = extend_wake t p

unfoldable pub advance_at {ℓ} :
    {A : Type ℓ} → Place A → Thread A → ThreadPool A → Thread A × ThreadPool A
unfolding core_wake extend_wake
advance_at top t p =
    if is_stop t.state
    then (break_out t, p)
    else (record t { place = asleep }, record p { wait_threads_num = p.wait_threads_num + 1 })
advance_at asleep t p = wake t.flag t (record p { wait_threads_num = p.wait_threads_num - 1 })
advance_at (busy task) t p = (record t { place = top }, p)
advance_at leaving t p =
    (record t { place = gone }, record p { total_threads_num = p.total_threads_num - 1 })
advance_at gone t p = (t, p)

-- The next part of the function of addThreadByFlag, for one thread.
abbrev pub advance {ℓ} : {A : Type ℓ} → Thread A → ThreadPool A → Thread A × ThreadPool A
advance t p = advance_at t.place t p

unfoldable pub add_thread_by_flag {ℓ} : {A : Type ℓ} → ThreadFlag → ThreadPool A → ThreadPool A
add_thread_by_flag flag p = record p {
  threads = p.threads ++ (record { flag = flag; state = init; place = top } ∷ []);
  total_threads_num = p.total_threads_num + 1;
}

abbrev pub add_threads {ℓ} : {A : Type ℓ} → ℕ → ThreadPool A → ThreadPool A
add_threads zero p = p
add_threads (suc n) p = add_threads n (add_thread_by_flag core_thread p)

unfoldable pub start {ℓ} : {A : Type ℓ} → ThreadPool A → ThreadPool A
unfolding add_thread_by_flag
start p = add_threads p.config.core_threads p

unfoldable pub stop {ℓ} : {A : Type ℓ} → ThreadPool A → ThreadPool A
stop p = record p { stop_flag = true }

-- enqueue up to its lock, and whether it goes on. The server has one thread that enqueues, so the
-- test of the counters and the new thread are one step.
unfoldable pub enqueue_check {ℓ} : {A : Type ℓ} → A → ThreadPool A → ThreadPool A × Bool
unfolding add_thread_by_flag
enqueue_check task p =
    let busy_now = p.wait_threads_num == 0 && ltb p.total_threads_num p.config.max_threads in
    let p' = if busy_now then add_thread_by_flag extend_thread p else p in
    if p.stop_flag then (p, false) else (record p' { entering = p.entering ++ (task ∷ []) }, true)

-- enqueue under its lock, for a task that stands in `entering`; `left` are the others.
unfoldable pub enqueue_put {ℓ} : {A : Type ℓ} → A → List A → ThreadPool A → ThreadPool A
enqueue_put task left p = record p { tasks = p.tasks ++ (task ∷ []); entering = left }
