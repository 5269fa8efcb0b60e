-- ===== src/SafeQueue/Waits.antt =====
-- When a pop waits, and what ends it.

use tiny_network_repository.Prelude.{
  ℕ, zero, suc, ◌≡◌, ◌<◌, ◌⊎◌, inl, inr, refl, sym, ◌∙◌, ap, arith, Bool, true, false, List, [],
  ◌∷◌, ◌++◌, Option, none, some, length, append_assoc, append-nil, Bool-cases, not, ◌||◌,
}
use tiny_network_repository.SafeQueue.{
  SafeQueue, Moment, is_ready, is_empty_list, await, wait_ready, wait_infinite, pop_wait, push,
  exit, take_front,
}

-- One of the moments finds an item or the exit flag.
abbrev pub SomeReady {ℓ} : {A : Type ℓ} → List (Moment A) → Type 0
SomeReady [] = ⊥
SomeReady (m ∷ later) = (is_ready m.queue ≡ true) ⊎ SomeReady later

await_ready {ℓ} :
    {A : Type ℓ} (later : List (Moment A))
    → SomeReady later
    → (r : SafeQueue A) × (await later ≡ some r) × (is_ready r ≡ true)
unfolding await
await_ready [] e = absurd e
await_ready (m ∷ later) h = elim (Bool-cases (is_ready m.queue)) [
  | inl now ↦ (m.queue, rw now, now)
  | inr not_now ↦
      let (r, e, ready) = await_ready later (in_rest not_now h) in (r, rw not_now e, ready)
]
  where
    in_rest :
        is_ready m.queue ≡ false → (is_ready m.queue ≡ true) ⊎ SomeReady later → SomeReady later
    in_rest off (inl now) = cc
    in_rest off (inr rest) = rest

front-cases {ℓ} :
    {A : Type ℓ} (items : List A) (r : SafeQueue A)
    → r.items ≡ items
    → is_ready r ≡ true
    → (r.exit_flag ≡ true)
      ⊎ ((x : A) × (rest : List A) × (items ≡ x ∷ rest)
          × (take_front items r ≡ (record r { items = rest }, some x)))
front-cases [] r e ready =
    inl (flag r.exit_flag (ap (λ xs. r.exit_flag || not (is_empty_list xs)) (sym e) ∙ ready))
  where
    flag : (b : Bool) → b || false ≡ true → b ≡ true
    flag true h = refl
    flag false h = cc
front-cases (x ∷ rest) r e ready = inr (x, rest, refl, refl)

-- A pop with no time limit returns as soon as the queue has an item or the exit flag, at the
-- beginning or at one of the moments when it is woken; it takes the first item, unless the flag is
-- set.
pub pop_wait_ends {ℓ} :
    {A : Type ℓ} (q : SafeQueue A) (later : List (Moment A))
    → (is_ready q ≡ true) ⊎ SomeReady later
    → (r : SafeQueue A) × (pop_wait wait_infinite later q ≡ some (take_front r.items r))
      × ((r.exit_flag ≡ true)
          ⊎ ((x : A) × (rest : List A) × (r.items ≡ x ∷ rest)
              × (take_front r.items r ≡ (record r { items = rest }, some x))))
unfolding pop_wait wait_ready
pop_wait_ends q later h = elim (Bool-cases (is_ready q)) [
  | inl now ↦ (q, rw now, front-cases q.items q refl now)
  | inr not_now ↦
      let (r, e, ready) = await_ready later (in_rest not_now h) in
      (r, rw (not_now, e), front-cases r.items r refl ready)
]
  where
    in_rest : is_ready q ≡ false → (is_ready q ≡ true) ⊎ SomeReady later → SomeReady later
    in_rest off (inl now) = cc
    in_rest off (inr rest) = rest

-- Pops until one finds no item, `k` of them at most: what is left, and the items that came out.
module _ {ℓ} {A : Type ℓ} (wait_ms : ℕ) (later : List (Moment A)) where
  abbrev pub after_pop :
      List A
      → (SafeQueue A → List A → Option (SafeQueue A × List A))
      → Option (SafeQueue A × Option A)
      → Option (SafeQueue A × List A)
  after_pop out more none = none
  after_pop out more (some (r, none)) = some (r, out)
  after_pop out more (some (r, some x)) = more r (out ++ (x ∷ []))

  abbrev pub pop_all : ℕ → SafeQueue A → List A → Option (SafeQueue A × List A)
  pop_all zero q out = none
  pop_all (suc k) q out = after_pop out (pop_all k) (pop_wait wait_ms later q)

  pop_exited :
      (q : SafeQueue A)
      → q.exit_flag ≡ true
      → pop_wait wait_ms later q ≡ some (take_front q.items q)
  unfolding pop_wait wait_ready
  pop_exited q h = rw h

  pop_all_exited :
      (items : List A) (q : SafeQueue A) (k : ℕ) (out : List A)
      → q.items ≡ items
      → q.exit_flag ≡ true
      → length items < k
      → pop_all k q out ≡ some (record q { items = [] }, out ++ items)
  pop_all_exited items q zero out e h lt = absurd (omega arith)
  pop_all_exited [] q (suc k) out e h lt =
      rw (pop_exited q h, e) (ap (λ xs. some (record q { items = [] }, xs)) (sym (append-nil out)))
  pop_all_exited (x ∷ rest) q (suc k) out e h lt =
      rw (pop_exited q h, e)
        (pop_all_exited rest (record q { items = rest }) k (out ++ (x ∷ [])) refl h (omega arith)
          ∙ ap (λ xs. some (record q { items = [] }, xs)) (append_assoc out (x ∷ []) rest))

  -- After exit a push is refused and changes nothing, and a loop that pops until there is no item,
  -- with any time limit and with more rounds than the queue has items, takes them all in order
  -- without waiting.
  pub exit_drains :
      (q : SafeQueue A) (x : A) (k : ℕ)
      → length q.items < k
      → (push x (exit q) ≡ (exit q, false))
        × (pop_all k (exit q) [] ≡ some (record (exit q) { items = [] }, q.items))
  unfolding push exit
  exit_drains q x k lt = (refl, pop_all_exited q.items (exit q) k [] refl refl lt)
