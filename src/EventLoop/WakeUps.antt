-- ===== src/EventLoop/WakeUps.antt =====
-- Tasks that other threads add to the queue of the loop, and the bytes that wake the loop up. The
-- threads make the calls of `add_task` one by one, between the events of the loop and while a task
-- runs that the callback of the pipe takes. What they do between the read of the byte and the first
-- pop has the same effect before the read, since they only add items and bytes.
use tiny_network_repository.Prelude.{
  ℕ, zero, suc, ◌+◌, ◌-◌, ◌≤◌, ◌<◌, ◌≡◌, ◌⊎◌, inl, inr, refl, ◌∙◌, arith, true, List, [], ◌∷◌, none,
  some, length, Bool-cases, Option, get_elem?, if◌then◌else◌, ltb, ◌&&◌, if_lem, ap, ◌||◌, not,
  ◌==◌, leb, length-append, Bool,
}
use tiny_network_repository.SafeQueue.{SafeQueue, push, pop_wait, wait_ready, take_front, is_ready}
use tiny_network_repository.EventBase.{EventBase}
use tiny_network_repository.EventBase.Timers.{runs}
use tiny_network_repository.EventLoop.{
  EventLoop, State, init_loop, wake_up, add_task, run_tasks, on_wake_up, one_byte,
}

-- A pop that does not wait takes the first item, if there is one.
pop_wait_zero : {A : Type 0} (q : SafeQueue A) → pop_wait 0 [] q ≡ some (take_front q.items q)
unfolding pop_wait wait_ready
pop_wait_zero q = elim (Bool-cases (is_ready q)) [ inl e ↦ rw e | inr e ↦ rw e ]

-- A thread in addTask, with how many of its calls it has made.
pub record Adding (A : Type 0) : Type 0 where
  pub task : A
  pub made : ℕ

-- What a thread does next: it comes to addTask, or the thread at a place makes its next call.
pub data Move (A : Type 0) : Type 0 where
  begins : A → Move A
  goes_on : ℕ → Move A

abbrev pub call_made :
    {A : Type 0}
    → Adding A
    → Option (EventLoop A → EventLoop A)
    → EventLoop A
    → EventLoop A × Adding A
call_made t none l = (l, t)
call_made t (some f) l = (f l, record t { made = t.made + 1 })

-- The loop, and the threads in addTask.
abbrev pub Shared : Type 0 → Type 0
Shared A = EventLoop A × List (Adding A)

abbrev pub make_call : {A : Type 0} → ℕ → EventLoop A → List (Adding A) → Shared A
make_call k l [] = (l, [])
make_call zero l (t ∷ ts) =
    let (l', t') = call_made t (get_elem? (add_task true t.task) t.made) l in (l', t' ∷ ts)
make_call (suc k) l (t ∷ ts) = let (l', ts') = make_call k l ts in (l', t ∷ ts')

abbrev pub move : {A : Type 0} → Move A → Shared A → Shared A
move (begins a) (l, ts) = (l, record { task = a; made = 0 } ∷ ts)
move (goes_on k) (l, ts) = make_call k l ts

abbrev pub moves : {A : Type 0} → List (Move A) → Shared A → Shared A
moves [] s = s
moves (m ∷ ms) s = moves ms (move m s)

-- The threads, and what they do while each task runs that the callback takes.
abbrev pub Others : Type 0 → Type 0
Others A = List (Adding A) × List (List (Move A))

-- A task that the callback takes runs, and the other threads go on.
abbrev pub meanwhile : {A : Type 0} → A → State A (Others A) → State A (Others A)
meanwhile a (e, (l, (ts, []))) = (e, (l, (ts, [])))
meanwhile a (e, (l, (ts, now ∷ later))) =
    let (l', ts') = moves now (l, ts) in (e, (l', (ts', later)))

abbrev pub in_all : {A : Type 0} → List (List (Move A)) → ℕ
in_all [] = 0
in_all (ms ∷ rest) = length ms + in_all rest

abbrev pub forget : {A : Type 0} → Option (State A (Others A)) → Option (State A (List (Adding A)))
forget none = none
forget (some (e, (l, (ts, rest)))) = some (e, (l, ts))

-- A move of a thread, or a call of the callback of the pipe, which happens if there is a byte.
pub data Event (A : Type 0) : Type 0 where
  moved : Move A → Event A
  woken : List (List (Move A)) → Event A

unfoldable pub happen :
    {A : Type 0} → Event A → State A (List (Adding A)) → Option (State A (List (Adding A)))
unfolding add_task on_wake_up
happen (moved m) (e, s) = some (e, move m s)
happen (woken during) (e, (l, ts)) =
    if ltb 0 l.pipe
    then forget (
        on_wake_up meanwhile (length l.tasks.items + in_all during + 1) one_byte
          (e, (l, (ts, during))))
    else some (e, (l, ts))

abbrev pub happens :
    {A : Type 0}
    → List (Event A)
    → Option (State A (List (Adding A)))
    → Option (State A (List (Adding A)))
happens events none = none
happens [] (some s) = some s
happens (x ∷ rest) (some s) = happens rest (happen x s)

-- The threads that have made a call of addTask and have one to make.
abbrev pub half_way : {A : Type 0} → List (Adding A) → ℕ
half_way [] = 0
half_way (t ∷ ts) =
    (if ltb 0 t.made && ltb t.made (length (add_task true t.task)) then 1 else 0) + half_way ts

-- The queue is empty, or the loop will come to it.
abbrev pub IsAwake : {A : Type 0} → Shared A → Type 0
IsAwake (l, ts) = (l.tasks.items ≡ []) ⊎ (1 ≤ l.pipe + half_way ts)

-- What a move does to the queue and to what wakes the loop up.
record Moved {A : Type 0} (s t : Shared A) : Type 0 where
  bound : length t.0.tasks.items ≤ length s.0.tasks.items + 1
  more : s.0.pipe + half_way s.1 ≤ t.0.pipe + half_way t.1
  awake : (t.0.tasks.items ≡ s.0.tasks.items) ⊎ (1 ≤ t.0.pipe + half_way t.1)

length-push :
    {A : Type 0} (a : A) (q : SafeQueue A) → length (push a q).0.items ≤ length q.items + 1
unfolding push
length-push {A = A} a q =
    if_lem (λ (r : SafeQueue A × Bool). length r.0.items ≤ length q.items + 1)
      (q.exit_flag || (not (q.capacity == 0) && leb q.capacity (length q.items))) (λ e. omega arith)
      (λ e. omega (arith, length-append q.items (a ∷ [])))

first-Moved :
    {A : Type 0} (a : A) (k : ℕ) (l : EventLoop A) (ts : List (Adding A))
    → Moved
        (l, record { task = a; made = k } ∷ ts)
        (make_call 0 l (record { task = a; made = k } ∷ ts))
unfolding add_task wake_up
first-Moved a zero l ts = record {
  bound = length-push a l.tasks;
  more = omega arith;
  awake = inr (omega arith);
}
first-Moved a (suc zero) l ts = record { bound = omega arith; more = omega arith; awake = inl refl }
first-Moved a (suc (suc k)) l ts = record {
  bound = omega arith;
  more = omega arith;
  awake = inl refl;
}

make_call-Moved :
    {A : Type 0} (k : ℕ) (l : EventLoop A) (ts : List (Adding A)) → Moved (l, ts) (make_call k l ts)
make_call-Moved k l [] = record { bound = omega arith; more = omega arith; awake = inl refl }
make_call-Moved zero l (t ∷ ts) = first-Moved t.task t.made l ts
make_call-Moved (suc k) l (t ∷ ts) =
    let m = make_call-Moved k l ts in
    record {
      bound = m.bound;
      more = omega (arith, m.more);
      awake = elim m.awake [ inl e ↦ inl e | inr e ↦ inr (omega (arith, e)) ];
    }

move-Moved : {A : Type 0} (m : Move A) (s : Shared A) → Moved s (move m s)
unfolding add_task
move-Moved (begins a) (l, ts) = record { bound = omega arith; more = omega arith; awake = inl refl }
move-Moved (goes_on k) (l, ts) = make_call-Moved k l ts

length-moves :
    {A : Type 0} (ms : List (Move A)) (s : Shared A)
    → length (moves ms s).0.tasks.items ≤ length s.0.tasks.items + length ms
length-moves [] s = omega arith
length-moves (m ∷ ms) s = omega (arith, (move-Moved m s).bound, length-moves ms (move m s))

-- The callback takes tasks until there is none.
run_tasks-empty :
    {A : Type 0} (fuel : ℕ) (e : EventBase A) (l : EventLoop A) (ts : List (Adding A))
    (during : List (List (Move A))) (items : List A)
    → l.tasks.items ≡ items
    → length items + in_all during < fuel
    → (s : State A (Others A)) × (run_tasks meanwhile fuel (e, (l, (ts, during))) ≡ some s)
      × (s.1.0.tasks.items ≡ [])
unfolding run_tasks
run_tasks-empty zero e l ts during items h lt = absurd (omega arith)
run_tasks-empty (suc fuel) e l ts during [] h lt =
    ((e, (l, (ts, during))), rw (pop_wait_zero l.tasks, h) refl, h)
run_tasks-empty (suc fuel) e l ts [] (x ∷ rest) h lt =
    let l₁ : EventLoop _ = record l { tasks = record l.tasks { items = rest } } in
    let (s, ran, empty) = run_tasks-empty fuel e l₁ ts [] rest refl (omega arith) in
    (s, rw (pop_wait_zero l.tasks, h) ran, empty)
run_tasks-empty (suc fuel) e l ts (now ∷ later) (x ∷ rest) h lt =
    let l₁ : EventLoop _ = record l { tasks = record l.tasks { items = rest } } in
    let s₁ = moves now (l₁, ts) in
    let (s, ran, empty) =
      run_tasks-empty fuel e s₁.0 s₁.1 later s₁.0.tasks.items refl
        (omega (arith, length-moves now (l₁, ts))) in
    (s, rw (pop_wait_zero l.tasks, h) ran, empty)

happen-IsAwake :
    {A : Type 0} (x : Event A) (s : State A (List (Adding A)))
    → IsAwake s.1
    → (t : State A (List (Adding A))) × (happen x s ≡ some t) × IsAwake t.1
unfolding happen on_wake_up
happen-IsAwake (moved m) (e, s) v =
    let g = move-Moved m s in
    (
      (e, move m s),
      refl,
      elim g.awake [
        | inr one ↦ inr one
        | inl same ↦ elim v [
          | inl none_left ↦ inl (same ∙ none_left)
          | inr one ↦ inr (omega (arith, one, g.more))
        ]
      ],
    )
happen-IsAwake (woken during) (e, (l, ts)) v = elim (Bool-cases (ltb 0 l.pipe)) [
  | inl byte ↦
      let (t, ran, empty) =
        run_tasks-empty (length l.tasks.items + in_all during + 1) e
          (record l { pipe = l.pipe - 1 }) ts during l.tasks.items refl (omega arith) in
      ((t.0, (t.1.0, t.1.1.0)), rw (byte, ran) refl, inl empty)
  | inr quiet ↦ ((e, (l, ts)), rw quiet refl, v)
]

happens-IsAwake :
    {A : Type 0} (events : List (Event A)) (s : State A (List (Adding A)))
    → IsAwake s.1
    → (t : State A (List (Adding A))) × (happens events (some s) ≡ some t) × IsAwake t.1
happens-IsAwake [] s v = (s, refl, v)
happens-IsAwake (x ∷ rest) s v =
    let (t, e, u) = happen-IsAwake x s v in
    let (t', e', u') = happens-IsAwake rest t u in (t', ap (happens rest) e ∙ e', u')

-- Threads add tasks to a new loop, and their writes to the pipe succeed; the callback of the pipe
-- is called now and then, where there is a byte. Threads come to addTask and go on, one call of it
-- after the other, in any order, before, between and after the calls of the callback, and while
-- each task runs that it takes. Then every call of the callback ends, and after any such events the
-- task queue is empty, or a byte is in the pipe, or a thread has made one call of addTask and has
-- the next before it.
pub wake_up-IsAwake :
    {A : Type 0} (events : List (Event A)) (e : EventBase A)
    → (s : State A (List (Adding A))) × (happens events (some (e, (init_loop true, []))) ≡ some s)
      × IsAwake s.1
unfolding init_loop
wake_up-IsAwake events e = happens-IsAwake events (e, (init_loop true, [])) (inl refl)

module _ {A W : Type 0} (call : A → State A W → State A W) (f : A → W → W)
    (apart : (a : A) (e : EventBase A) (l : EventLoop A) (w : W)
      → call a (e, (l, w)) ≡ (e, (l, f a w))) where
  drains :
      (items : List A) (fuel : ℕ) (e : EventBase A) (l : EventLoop A) (w : W)
      → l.tasks.items ≡ items
      → length items < fuel
      → run_tasks call fuel (e, (l, w))
        ≡ some (e, (record l { tasks = record l.tasks { items = [] } }, runs f items w))
  unfolding run_tasks
  drains items zero e l w h lt = absurd (omega arith)
  drains [] (suc fuel) e l w h lt = rw (pop_wait_zero l.tasks, h) refl
  drains (x ∷ rest) (suc fuel) e l w h lt =
      rw
        (
          pop_wait_zero l.tasks,
          h,
          apart x e (record l { tasks = record l.tasks { items = rest } }) w,
        )
        (drains rest fuel e (record l { tasks = record l.tasks { items = rest } }) (f x w) refl
          (omega arith))

  -- Where tasks leave the event base and the loop alone, and with more rounds than the queue has
  -- tasks, the callback of the pipe, having read a byte, comes to the same as running the tasks of
  -- the queue in order over the rest of the program: it ends, and the queue is empty.
  pub on_wake_up_lem :
      (fuel : ℕ) (e : EventBase A) (l : EventLoop A) (w : W)
      → length l.tasks.items < fuel
      → on_wake_up call fuel one_byte (e, (l, w))
        ≡ some (
          e,
          (
            record l { pipe = l.pipe - 1; tasks = record l.tasks { items = [] } },
            runs f l.tasks.items w,
          ),
        )
  unfolding on_wake_up
  on_wake_up_lem fuel e l w lt =
      drains l.tasks.items fuel e (record l { pipe = l.pipe - 1 }) w refl lt
