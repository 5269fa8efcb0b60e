-- ===== src/SafeQueue/Order.antt =====
-- Items leave a queue in the order in which they were accepted, and the bound is kept.

use tiny_network_repository.Prelude.{
  ℕ, ◌≤◌, ◌≡◌, refl, sym, ◌∙◌, ap, arith, Bool, List, [], ◌∷◌, ◌++◌, Option, none, some, length,
  length-append, append_assoc, Bool-cases, inl, inr, ◌⊎◌, ◌==◌, leb, not, ◌&&◌, ◌||◌, if◌then◌else◌,
}
use tiny_network_repository.SafeQueue.{
  SafeQueue, is_ready, create, push, exit, pop_wait, take_front, wait_ready,
}

-- What a thread does to the queue; its pops do not wait.
pub data Op {ℓ} (A : Type ℓ) : Type ℓ where
  pushing : A → Op A
  popping exiting : Op A

-- The queue, the items that pushes accepted, and those that pops took.
pub record Trace {ℓ} (A : Type ℓ) : Type ℓ where
  pub queue : SafeQueue A
  pub accepted : List A
  pub taken : List A

abbrev pub note {ℓ} : {A : Type ℓ} → Bool → A → List A → List A
note b x xs = if b then xs ++ (x ∷ []) else xs

abbrev pub got {ℓ} : {A : Type ℓ} → Option A → List A → List A
got none xs = xs
got (some x) xs = xs ++ (x ∷ [])

abbrev pub popped {ℓ} : {A : Type ℓ} → Trace A → Option (SafeQueue A × Option A) → Trace A
popped t none = t
popped t (some (q, o)) = record t { queue = q; taken = got o t.taken }

abbrev pub perform {ℓ} : {A : Type ℓ} → Trace A → Op A → Trace A
perform t (pushing x) =
    let (q, b) = push x t.queue in record t { queue = q; accepted = note b x t.accepted }
perform t popping = popped t (pop_wait 0 [] t.queue)
perform t exiting = record t { queue = exit t.queue }

abbrev pub performs {ℓ} : {A : Type ℓ} → Trace A → List (Op A) → Trace A
performs t [] = t
performs t (o ∷ os) = performs (perform t o) os

pub record IsOrdered {ℓ} {A : Type ℓ} (n : ℕ) (t : Trace A) : Type ℓ where
  pub all_there : t.accepted ≡ t.taken ++ t.queue.items
  pub same_capacity : t.queue.capacity ≡ n
  pub bound : (n ≡ 0) ⊎ (length t.queue.items ≤ n)

-- A pop that does not wait takes the first item.
pop_now {ℓ} : {A : Type ℓ} (q : SafeQueue A) → pop_wait 0 [] q ≡ some (take_front q.items q)
unfolding pop_wait wait_ready
pop_now q = elim (Bool-cases (is_ready q)) [ inl e ↦ rw e | inr e ↦ rw e ]

front-IsOrdered {ℓ} :
    {A : Type ℓ} (n : ℕ) (t : Trace A) (items : List A)
    → t.queue.items ≡ items
    → IsOrdered n t
    → IsOrdered n (popped t (some (take_front items t.queue)))
front-IsOrdered n t [] e v = v
front-IsOrdered n t (x ∷ rest) e v = record {
  all_there = v.all_there ∙ ap (◌++◌ t.taken) e ∙ sym (append_assoc t.taken (x ∷ []) rest);
  same_capacity = v.same_capacity;
  bound = let l = ap length e in ground (arith, v.bound);
}

perform-IsOrdered {ℓ} :
    {A : Type ℓ} (n : ℕ) (t : Trace A) (o : Op A) → IsOrdered n t → IsOrdered n (perform t o)
unfolding push exit
perform-IsOrdered n t (pushing x) v =
    elim (Bool-cases (
      t.queue.exit_flag
      || (not (t.queue.capacity == 0) && leb t.queue.capacity (length t.queue.items)))) [
        | inl refused ↦ rw refused v
        | inr fits ↦ rw fits record {
          all_there =
              ap (λ xs. xs ++ (x ∷ [])) v.all_there ∙ append_assoc t.taken t.queue.items (x ∷ []);
          same_capacity = v.same_capacity;
          bound =
              let l = length-append t.queue.items (x ∷ []) in
              ground (arith, v.bound, v.same_capacity);
        }
      ]
perform-IsOrdered n t popping v = rw (pop_now t.queue) (front-IsOrdered n t t.queue.items refl v)
perform-IsOrdered n t exiting v = record {
  all_there = v.all_there;
  same_capacity = v.same_capacity;
  bound = v.bound;
}

performs-IsOrdered {ℓ} :
    {A : Type ℓ} (n : ℕ) (t : Trace A) (os : List (Op A))
    → IsOrdered n t
    → IsOrdered n (performs t os)
performs-IsOrdered n t [] v = v
performs-IsOrdered n t (o ∷ os) v =
    performs-IsOrdered n (perform t o) os (perform-IsOrdered n t o v)

-- Whatever sequence of pushes, pops without waiting and exits a new queue of capacity n goes
-- through, the items that its pushes accepted are those that its pops took, followed by those that
-- it holds, in order; and it holds n at most, unless n is 0.
pub first_in_first_out {ℓ} :
    {A : Type ℓ} (n : ℕ) (os : List (Op A))
    → IsOrdered n (performs (record { queue = create n; accepted = []; taken = [] }) os)
unfolding create
first_in_first_out n os =
    performs-IsOrdered n (record { queue = create n; accepted = []; taken = [] }) os
      (record { all_there = refl; same_capacity = refl; bound = inr (omega arith) })
