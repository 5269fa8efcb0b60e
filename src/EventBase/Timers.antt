-- ===== src/EventBase/Timers.antt =====
-- The order of the timers, and which of them run.
use tiny_network_repository.Prelude.{
  ◌≤◌, ℕ, zero, suc, ◌^◌, ◌<◌, ◌≡◌, inl, inr, refl, arith, true, false, List, [], ◌∷◌, some, length,
  if◌then◌else◌, Bool-cases,
}
use tiny_network_repository.Prelude.Outcome.{ok}
use tiny_network_repository.EventBase.{
  EventBase, Timer, Work, once, repeated, precedes, add_timer, is_expired, handle_timeouts, perform,
  first_timer,
}

-- Every timer of the list has a key above (at, seq).
abbrev pub Above {ℓ} : {A : Type ℓ} → ℕ → ℕ → List (Timer A) → Type 0
Above at seq [] = Unit {0}
Above at seq (u ∷ us) = (precedes at seq u.at u.seq ≡ true) × Above at seq us

-- The keys increase.
abbrev pub IsSorted {ℓ} : {A : Type ℓ} → List (Timer A) → Type 0
IsSorted [] = Unit {0}
IsSorted (t ∷ ts) = Above t.at t.seq ts × IsSorted ts

-- No timer of the list has this sequence number.
abbrev pub IsNew {ℓ} : {A : Type ℓ} → ℕ → List (Timer A) → Type 0
IsNew seq [] = Unit {0}
IsNew seq (u ∷ us) = (u.seq < seq) × IsNew seq us

precedes_trans :
    (a s b t c u : ℕ) → precedes a s b t ≡ true → precedes b t c u ≡ true → precedes a s c u ≡ true
precedes_trans a s b t c u h k = ground arith

Above-trans {ℓ} :
    {A : Type ℓ} (a s b t : ℕ) (ts : List (Timer A))
    → precedes a s b t ≡ true
    → Above b t ts
    → Above a s ts
Above-trans a s b t [] h k = tt
Above-trans a s b t (u ∷ us) h (k, ks) =
    (precedes_trans a s b t u.at u.seq h k, Above-trans a s b t us h ks)

Above-add_timer {ℓ} :
    {A : Type ℓ} (a s : ℕ) (t : Timer A) (ts : List (Timer A))
    → precedes a s t.at t.seq ≡ true
    → Above a s ts
    → Above a s (add_timer t ts)
unfolding add_timer
Above-add_timer a s t [] h k = (h, tt)
Above-add_timer a s t (u ∷ us) h (k, ks) = elim (Bool-cases (precedes t.at t.seq u.at u.seq)) [
  | inl e ↦ rw e (h, (k, ks))
  | inr e ↦ rw e (k, Above-add_timer a s t us h ks)
]

later_key : (a s b t : ℕ) → t < s → precedes a s b t ≡ false → precedes b t a s ≡ true
later_key a s b t h k = ground arith

-- Entering a timer whose sequence number is above all others keeps the timers in the order of their
-- keys.
pub add_timer-IsSorted {ℓ} :
    {A : Type ℓ} (t : Timer A) (ts : List (Timer A))
    → IsNew t.seq ts
    → IsSorted ts
    → IsSorted (add_timer t ts)
unfolding add_timer
add_timer-IsSorted t [] n v = (tt, tt)
add_timer-IsSorted t (u ∷ us) (n, ns) (above, v) =
    elim (Bool-cases (precedes t.at t.seq u.at u.seq)) [
      | inl e ↦ rw e ((e, Above-trans t.at t.seq u.at u.seq us e above), (above, v))
      | inr e ↦ rw e (
        Above-add_timer u.at u.seq t us (later_key t.at t.seq u.at u.seq n e) above,
        add_timer-IsSorted t us ns v,
      )
    ]

-- The timers do not repeat.
abbrev pub AllOnce {ℓ} : {A : Type ℓ} → List (Timer A) → Type ℓ
AllOnce [] = Unit
AllOnce {A = A} (t ∷ ts) = ((a : A) × (t.work ≡ once a)) × AllOnce ts

-- The expired timers of a list, the others, and the tasks of timers that do not repeat.
abbrev pub due {ℓ} : {A : Type ℓ} → ℕ → List (Timer A) → List (Timer A)
due now [] = []
due now (t ∷ ts) = if is_expired now t then t ∷ due now ts else due now ts

abbrev pub left {ℓ} : {A : Type ℓ} → ℕ → List (Timer A) → List (Timer A)
left now [] = []
left now (t ∷ ts) = if is_expired now t then left now ts else t ∷ left now ts

abbrev pub and_task {ℓ} : {A : Type ℓ} → Work A → List A → List A
and_task (once a) rest = a ∷ rest
and_task (repeated id) rest = rest

abbrev pub tasks {ℓ} : {A : Type ℓ} → List (Timer A) → List A
tasks [] = []
tasks (t ∷ ts) = and_task t.work (tasks ts)

abbrev pub runs {ℓ} : {A : Type ℓ} {W : Type 0} → (A → W → W) → List A → W → W
runs f [] w = w
runs f (a ∷ rest) w = runs f rest (f a w)

not_expired :
    (a s b t now : ℕ)
    → precedes a s now (2 ^ 62) ≡ false
    → precedes a s b t ≡ true
    → precedes b t now (2 ^ 62) ≡ false
not_expired a s b t now h k = ground arith

none_due {ℓ} :
    {A : Type ℓ} (now a s : ℕ) (ts : List (Timer A))
    → precedes a s now (2 ^ 62) ≡ false
    → Above a s ts
    → (due now ts ≡ []) × (left now ts ≡ ts)
none_due now a s [] h k = (refl, refl)
none_due now a s (u ∷ us) h (k, ks) =
    let (d, l) = none_due now a s us h ks in
    let off = not_expired a s u.at u.seq now h k in rw (off, d, l) (refl, refl)

module _ {ℓ} {A : Type ℓ} {W : Type 0} (call : A → EventBase A × W → EventBase A × W)
    (f : A → W → W) (apart : (a : A) (e : EventBase A) (w : W) → call a (e, w) ≡ (e, f a w)) where
  perform-once :
      (work : Work A) (a : A) (e : EventBase A) (w : W)
      → work ≡ once a
      → perform call work (e, w) ≡ ok (e, f a w)
  unfolding perform
  perform-once work a e w h = rw (h, apart a e w)

  ends :
      (now fuel : ℕ) (ts : List (Timer A)) (e : EventBase A) (w : W)
      → IsSorted ts
      → AllOnce ts
      → length ts ≤ fuel
      → first_timer call now (handle_timeouts call now fuel) ts (record e { timers = ts }, w)
        ≡ some (ok (record e { timers = left now ts }, runs f (tasks (due now ts)) w))
  unfolding handle_timeouts
  ends now fuel [] e w v o lt = refl
  ends now zero (t ∷ ts) e w v o lt = absurd (omega arith)
  ends now (suc fuel) (t ∷ ts) e w (above, v) ((a, is_a), o) lt =
      elim (Bool-cases (is_expired now t)) [
        | inl x ↦
            rw (x, perform-once t.work a (record e { timers = ts }) w is_a, is_a)
              (ends now fuel ts e (f a w) v o (omega arith))
        | inr x ↦ let (d, l) = none_due now t.at t.seq ts x above in rw (x, d, l)
      ]

  -- With timers in the order of their keys that do not repeat, tasks that leave the event base
  -- alone, and more rounds than timers, handleTimeouts ends: the tasks of the expired timers ran,
  -- in the order of their keys, and the other timers are left.
  pub handle_timeouts_lem :
      (now fuel : ℕ) (e : EventBase A) (w : W)
      → IsSorted e.timers
      → AllOnce e.timers
      → length e.timers ≤ fuel
      → handle_timeouts call now (suc fuel) (e, w)
        ≡ some (ok (record e { timers = left now e.timers }, runs f (tasks (due now e.timers)) w))
  unfolding handle_timeouts
  handle_timeouts_lem now fuel e w v o lt = ends now fuel e.timers e w v o lt
