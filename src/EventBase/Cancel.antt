-- ===== src/EventBase/Cancel.antt =====
-- A timer that is entered and cancelled.
use mathlib.Core.Path.{subst}
use tiny_network_repository.Prelude.{
  ℕ, suc, ◌+◌, ◌<◌, ◌≤◌, ◌≡◌, refl, sym, arith, true, false, List, [], ◌∷◌, ◌&&◌, ◌==◌, Bool-cases,
  inl, inr,
}
use tiny_network_repository.Prelude.Int.{negsuc}
use tiny_network_repository.Prelude.Outcome.{ok}
use tiny_network_repository.EventBase.{
  EventBase, Timer, TimerId, TimerRepeatable, precedes, add_timer, run_at, cancel, erase_key,
  has_key, erase_rep, same_id, once, repeated,
}
use tiny_network_repository.EventBase.Timers.{IsNew}

key_self : (a s : ℕ) → a == a && s == s ≡ true
key_self a s = ground arith

key_other : (a s b t : ℕ) → t < s → a == b && s == t ≡ false
key_other a s b t h = ground arith

erase_key-add_timer {ℓ} :
    {A : Type ℓ} (t : Timer A) (ts : List (Timer A))
    → IsNew t.seq ts
    → (erase_key t.at t.seq (add_timer t ts) ≡ ts) × (has_key t.at t.seq (add_timer t ts) ≡ true)
unfolding erase_key add_timer
erase_key-add_timer t [] n = rw (key_self t.at t.seq) (refl, refl)
erase_key-add_timer t (u ∷ us) (n, ns) = elim (Bool-cases (precedes t.at t.seq u.at u.seq)) [
  | inl e ↦ rw (e, key_self t.at t.seq) (refl, refl)
  | inr e ↦
      let (erased, there) = erase_key-add_timer t us ns in
      rw (e, key_other t.at t.seq u.at u.seq n, erased, there) (refl, refl)
]

pub IsNew-le {ℓ} : {A : Type ℓ} (m n : ℕ) (ts : List (Timer A)) → m ≤ n → IsNew m ts → IsNew n ts
IsNew-le m n [] le h = tt
IsNew-le m n (t ∷ ts) le (h, hs) = (omega arith, IsNew-le m n ts le hs)

-- A timer that is entered for a time above 0, in an event base that did not exit and whose timers
-- have earlier sequence numbers, whether it repeats or not, is cancelled by the number that it was
-- given: the timers and the repeating timers are as they were before it.
pub cancel-run_at {ℓ} :
    {A : Type ℓ} (n interval : ℕ) (task : A) (e : EventBase A)
    → e.exit_flag ≡ false
    → IsNew (e.timer_seq + 1) e.timers
    → let (e', id) = run_at (suc n) task interval e in
      cancel id e' ≡ ok (record e { timer_seq = e'.timer_seq }, true)
unfolding run_at cancel
cancel-run_at {A = A} n interval task e on fresh = elim (Bool-cases (interval == 0)) [
  | inl z ↦
      let (erased, there) =
        erase_key-add_timer (record { at = suc n; seq = e.timer_seq + 1; work = once task })
          e.timers fresh in
      rw (on, z, there, erased)
  | inr z ↦
      let id : TimerId = record { first = negsuc n; second = e.timer_seq + 1 } in
      let t : Timer A = record { at = suc n; seq = e.timer_seq + 2; work = repeated id } in
      let (erased, there) =
        erase_key-add_timer t e.timers
          (IsNew-le (e.timer_seq + 1) (e.timer_seq + 2) e.timers (omega arith) fresh) in
      let same : same_id id id ≡ true = key_self n (e.timer_seq + 1) in
      let r : TimerRepeatable A = record {
        id = id;
        at = suc n;
        interval = interval;
        timer_at = suc n;
        timer_seq = e.timer_seq + 2;
        cb = task;
      } in
      let e₁ : EventBase A = record e {
        timer_seq = e.timer_seq + 2;
        timers = add_timer t e.timers;
        rep_timers = r ∷ e.rep_timers;
      } in
      let started : run_at (suc n) task interval e ≡ (e₁, id) = rw (on, z) in
      let ended : cancel id e₁ ≡ ok (record e { timer_seq = e.timer_seq + 2 }, true) =
        let gone : erase_rep id (r ∷ e.rep_timers) ≡ e.rep_timers = rw same in
        rw (same, erased, gone) in
      subst (λ x. cancel x.1 x.0 ≡ ok (record e { timer_seq = x.0.timer_seq }, true)) (sym started)
        ended
]
