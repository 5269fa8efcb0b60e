-- ===== src/Poller/Slots.antt =====
-- `removeChannel` and the slots of a round that is under way.
use native.Mathlib.Decide.{dec_lt, ℕ_discrete}
use tiny_network_repository.Prelude.{
  ℕ, zero, suc, ◌≤◌, ◌<◌, ◌≡◌, ◌≢◌, refl, ap, arith, true, false, List, Option, none, some,
  Bool-cases, inl, inr, length, get_elem?, get_elem?-set_self, get_elem?-set_ne, get_elem?-past, [],
  ◌∷◌,
}
use tiny_network_repository.Poller.{
  Poller, Slot, is_ptr, nulled, null_down, remove_channel, rounds_left, member, set_erase,
}

-- No slot below `n` holds the channel.
abbrev pub Absent : ℕ → ℕ → List Slot → Type 0
Absent ch n evs = (j : ℕ) → j < n → is_ptr ch (get_elem? evs j) ≡ false

-- At most one slot below `n` holds the channel: epoll reports a descriptor once.
abbrev pub AtMostOnce : ℕ → ℕ → List Slot → Type 0
AtMostOnce ch n evs =
    (i j : ℕ)
    → i < n
    → j < n
    → is_ptr ch (get_elem? evs i) ≡ true
    → is_ptr ch (get_elem? evs j) ≡ true
    → i ≡ j

nulled-is_ptr : (ch : ℕ) (o : Option Slot) → is_ptr ch (some (nulled o)) ≡ false
nulled-is_ptr ch none = refl
nulled-is_ptr ch (some s) = refl

-- Slots above the scan keep what they hold.
null_down-above :
    (ch i j : ℕ) (evs : List Slot) → i ≤ j → get_elem? (null_down ch i evs) j ≡ get_elem? evs j
unfolding null_down
null_down-above ch zero j evs h = refl
null_down-above ch (suc i) j evs h = elim (Bool-cases (is_ptr ch (get_elem? evs i))) [
  | inl e ↦ rw e (get_elem?-set_ne evs (nulled (get_elem? evs i)) (λ q. absurd (omega arith)))
  | inr e ↦ rw e (null_down-above ch i j evs (omega arith))
]

present-lt : (ch i : ℕ) (evs : List Slot) → is_ptr ch (get_elem? evs i) ≡ true → i < length evs
present-lt ch i evs e = elim (dec_lt i (length evs)) [
  | yes p ↦ p
  | no p ↦ cc (ap (is_ptr ch) (get_elem?-past evs i (omega arith)))
]

null_down-Absent :
    (ch n : ℕ) (evs : List Slot) → AtMostOnce ch n evs → Absent ch n (null_down ch n evs)
unfolding null_down
null_down-Absent ch zero evs once j lt = absurd (omega arith)
null_down-Absent ch (suc i) evs once j lt = elim (Bool-cases (is_ptr ch (get_elem? evs i))) [
  | inl e ↦ rw e (elim (ℕ_discrete i j) [
    | yes p ↦
        rw (← p, get_elem?-set_self evs i (nulled (get_elem? evs i)) (present-lt ch i evs e))
          (nulled-is_ptr ch (get_elem? evs i))
    | no p ↦ rw (get_elem?-set_ne evs (nulled (get_elem? evs i)) p) (other e p)
  ])
  | inr e ↦ rw e (elim (ℕ_discrete j i) [
    | yes p ↦ rw (p, null_down-above ch i i evs (omega arith)) e
    | no p ↦
        null_down-Absent ch i evs (λ a b la lb. once a b (omega arith) (omega arith)) j
          (omega arith)
  ])
]
  where
    other : is_ptr ch (get_elem? evs i) ≡ true → i ≢ j → is_ptr ch (get_elem? evs j) ≡ false
    other e p = elim (Bool-cases (is_ptr ch (get_elem? evs j))) [
      | inl q ↦ absurd (p (once i j (omega arith) lt e q))
      | inr q ↦ q
    ]

member-set_erase : (x : ℕ) (s : List ℕ) → member x (set_erase x s) ≡ false
unfolding member set_erase
member-set_erase x [] = refl
member-set_erase x (y ∷ ys) = ground (arith, member-set_erase x ys)

-- After `removeChannel` a channel that was in one pending slot at most is in none of them, and not
-- among the live channels.
pub remove_channel-Absent :
    (ch : ℕ) (p : Poller)
    → AtMostOnce ch (rounds_left p.last_active) p.active_evs
    → Absent ch (rounds_left p.last_active) (remove_channel ch p).active_evs
      × (member ch (remove_channel ch p).live_channels ≡ false)
unfolding remove_channel
remove_channel-Absent ch p once = (
  null_down-Absent ch (rounds_left p.last_active) p.active_evs once,
  member-set_erase ch p.live_channels,
)
