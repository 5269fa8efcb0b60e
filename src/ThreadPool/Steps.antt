-- ===== src/ThreadPool/Steps.antt =====
-- The threads of a pool and its callers, as a relation between one state and the next.
use tiny_network_repository.Prelude.{ℕ, ◌+◌, ◌≡◌, arith, List, [], ◌∷◌, ◌++◌, none, some}
use tiny_network_repository.ThreadPool.{
  ThreadPool, Thread, Place, top, asleep, busy, leaving, gone, advance, enqueue_check, enqueue_put,
  stop,
}

-- The pool, the tasks that its queue accepted, and those that threads took from it.
pub record Run {ℓ} (A : Type ℓ) : Type ℓ where
  pub pool : ThreadPool A
  pub accepted : List A
  pub taken : List A

abbrev pub task_of {ℓ} : {A : Type ℓ} → Place A → List A
task_of (busy (some a)) = a ∷ []
task_of (busy none) = []
task_of top = []
task_of asleep = []
task_of leaving = []
task_of gone = []

-- What a thread takes when it goes from one place to the next; only a sleeping thread takes.
abbrev pub takes {ℓ} : {A : Type ℓ} → Place A → Place A → List A
takes asleep after = task_of after
takes top after = []
takes (busy o) after = []
takes leaving after = []
takes gone after = []

abbrev pub after_move {ℓ} :
    {A : Type ℓ} → List (Thread A) → Thread A → List (Thread A) → Run A → Run A
after_move xs t ys r =
    let (t', p) = advance t r.pool in
    record r {
      pool = record p { threads = xs ++ (t' ∷ ys) };
      taken = r.taken ++ takes t.place t'.place;
    }

abbrev pub after_put {ℓ} : {A : Type ℓ} → A → List A → Run A → Run A
after_put a left r = record r {
  pool = enqueue_put a left r.pool;
  accepted = r.accepted ++ (a ∷ []);
}

-- A caller comes to enqueue; one that passed the test puts its task into the queue; the pool is
-- stopped; a thread goes on.
pub data Step {ℓ} {A : Type ℓ} (r : Run A) : Run A → Type ℓ where
  checks : (a : A) → Step r (record r { pool = (enqueue_check a r.pool).0 })
  puts :
      (a : A) (xs ys : List A)
      → r.pool.entering ≡ xs ++ (a ∷ ys)
      → Step r (after_put a (xs ++ ys) r)
  stops : Step r (record r { pool = stop r.pool })
  moves :
      (t : Thread A) (xs ys : List (Thread A))
      → r.pool.threads ≡ xs ++ (t ∷ ys)
      → Step r (after_move xs t ys r)

pub data Reach {ℓ} {A : Type ℓ} (r : Run A) : Run A → Type ℓ where
  here : Reach r r
  next : {s u : Run A} → Reach r s → Step s u → Reach r u

-- A sum over the threads.
abbrev pub tally {ℓ} : {A : Type ℓ} → (Thread A → ℕ) → List (Thread A) → ℕ
tally f [] = 0
tally f (t ∷ ts) = f t + tally f ts

pub tally-append {ℓ} :
    {A : Type ℓ} (f : Thread A → ℕ) (xs ys : List (Thread A))
    → tally f (xs ++ ys) ≡ tally f xs + tally f ys
tally-append f [] ys = omega arith
tally-append f (t ∷ xs) ys = omega (arith, tally-append f xs ys)
