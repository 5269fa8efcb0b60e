-- ===== src/SafeQueue.antt =====
-- include/tiny_safequeue.h: a queue between threads, with a bound and an exit flag. The lock is held
-- for a push; a pop gives it up while it waits. What the other threads do in that time is a list of
-- moments, one for each return of the condition variable: the queue as it is then, and whether the
-- wait timed out. The result none says that the pop still waits.
pub mod Order
pub mod Waits
mod Tests
use mathlib.Core.Option
use tiny_network_repository.Prelude.{
  ℕ, zero, suc, ◌+◌, ◌-◌, ◌^◌, Bool, true, false, not, ◌&&◌, ◌||◌, List, [], ◌∷◌, ◌++◌, Option,
  none, some, length, if◌then◌else◌, leb, ◌==◌,
}

pub record SafeQueue {ℓ} (A : Type ℓ) : Type ℓ where
  pub items : List A
  pub capacity : ℕ
  pub exit_flag : Bool

-- A capacity of 0 is no bound.
unfoldable pub create {ℓ} : {A : Type ℓ} → ℕ → SafeQueue A
create capacity = record { items = []; capacity = capacity; exit_flag = false }

unfoldable pub push {ℓ} : {A : Type ℓ} → A → SafeQueue A → SafeQueue A × Bool
push t q =
    if q.exit_flag || (not (q.capacity == 0) && leb q.capacity (length q.items))
    then (q, false)
    else (record q { items = q.items ++ (t ∷ []) }, true)

unfoldable pub size {ℓ} : {A : Type ℓ} → SafeQueue A → ℕ
size q = length q.items

unfoldable pub exit {ℓ} : {A : Type ℓ} → SafeQueue A → SafeQueue A
exit q = record q { exit_flag = true }

-- The default of `waitMs`, the largest int.
abbrev pub wait_infinite : ℕ
wait_infinite = 2 ^ 31 - 1

pub record Moment {ℓ} (A : Type ℓ) : Type ℓ where
  pub queue : SafeQueue A
  pub timed_out : Bool

abbrev pub is_empty_list {ℓ} : {A : Type ℓ} → List A → Bool
is_empty_list [] = true
is_empty_list (x ∷ xs) = false

-- `m_exit || !m_items.empty()`
abbrev pub is_ready {ℓ} : {A : Type ℓ} → SafeQueue A → Bool
is_ready q = q.exit_flag || not (is_empty_list q.items)

-- `m_cond.wait` with its predicate.
unfoldable pub await {ℓ} : {A : Type ℓ} → List (Moment A) → Option (SafeQueue A)
await [] = none
await (m ∷ later) = let rest = await later in if is_ready m.queue then some m.queue else rest

-- The loop over `m_cond.wait_until`.
unfoldable pub await_until {ℓ} : {A : Type ℓ} → List (Moment A) → Option (SafeQueue A)
await_until [] = none
await_until (m ∷ later) =
    let rest = await_until later in
    if not m.timed_out && not (is_ready m.queue) then rest else some m.queue

-- A negative `waitMs` does what 0 does.
unfoldable pub wait_ready {ℓ} :
    {A : Type ℓ} → ℕ → List (Moment A) → SafeQueue A → Option (SafeQueue A)
wait_ready wait_ms later q =
    if is_ready q
    then some q
    else if wait_ms == wait_infinite
    then await later
    else if wait_ms == 0
    then some q
    else await_until later

-- The end of a pop: the first item, if there is one.
abbrev pub take_front {ℓ} : {A : Type ℓ} → List A → SafeQueue A → SafeQueue A × Option A
take_front [] q = (q, none)
take_front (x ∷ rest) q = (record q { items = rest }, some x)

-- popWait(T*, int): no item is the result false.
unfoldable pub pop_wait {ℓ} :
    {A : Type ℓ} → ℕ → List (Moment A) → SafeQueue A → Option (SafeQueue A × Option A)
unfolding wait_ready
pop_wait wait_ms later q = Option.map (λ r. take_front r.items r) (wait_ready wait_ms later q)
