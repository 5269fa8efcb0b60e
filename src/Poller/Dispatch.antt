-- ===== src/Poller/Dispatch.antt =====
-- A round of events: whose callbacks run.
use tiny_network_repository.Prelude.{
  ℕ, zero, suc, ◌≡◌, ◌≢◌, refl, ◌∙◌, ap, arith, Bool, true, false, Option, none, some, get_elem?,
  if◌then◌else◌,
}
use tiny_network_repository.Prelude.Int.{pos}
use tiny_network_repository.Poller.{
  Poller, Slot, is_ptr, dispatch, dispatch_slot, dispatch_ptr, holds, rounds, has, with_flag,
  any_of, err_events, read_event, write_event,
}
use tiny_network_repository.Poller.Slots.{Absent}

module _ {W : Type 0} (hr hw hr' hw' : ℕ → Poller × W → Poller × W) (ch : ℕ)
    (keeps_r : (c n : ℕ) (s : Poller × W)
      → Absent ch n s.0.active_evs
      → Absent ch n (hr c s).0.active_evs)
    (keeps_w : (c n : ℕ) (s : Poller × W)
      → Absent ch n s.0.active_evs
      → Absent ch n (hw c s).0.active_evs)
    (same_r : (c : ℕ) (s : Poller × W) → c ≢ ch → hr c s ≡ hr' c s)
    (same_w : (c : ℕ) (s : Poller × W) → c ≢ ch → hw c s ≡ hw' c s) where
  abbrev Off : ℕ → Poller × W → Type 0
  Off n s = Absent ch n s.0.active_evs

  either : (b : Bool) (n : ℕ) (s t : Poller × W) → Off n s → Off n t → Off n (if b then s else t)
  either true n s t a a' = a
  either false n s t a a' = a'

  dispatch-same :
      (c e : ℕ) (s : Poller × W) → c ≢ ch → dispatch hr hw c e s ≡ dispatch hr' hw' c e s
  unfolding dispatch
  dispatch-same c e s ne =
      let asks_read = has (if any_of e err_events then with_flag e read_event else e) read_event in
      let asks_write =
        has (if any_of e err_events then with_flag e read_event else e) write_event in
      let first = if asks_read then hr c s else s in
      rw (← same_r c s ne) (ground (arith, same_w c (hr c s) ne, same_w c s ne))

  dispatch-Absent :
      (c e n : ℕ) (s : Poller × W)
      → Absent ch n s.0.active_evs
      → Absent ch n (dispatch hr hw c e s).0.active_evs
  unfolding dispatch
  dispatch-Absent c e n s a =
      let after = either (has e' read_event) n (hr c s) s (keeps_r c n s a) a in
      either (has e' write_event) n (hw c s') s' (keeps_w c n s' after) after
    where
      e' : ℕ
      e' = if any_of e err_events then with_flag e read_event else e

      s' : Poller × W
      s' = if has e' read_event then hr c s else s

  ptr-same :
      (ptr : Option ℕ) (e : ℕ) (s : Poller × W)
      → holds ch ptr ≡ false
      → dispatch_ptr hr hw ptr e s ≡ dispatch_ptr hr' hw' ptr e s
  ptr-same none e s a = refl
  ptr-same (some c) e s a = dispatch-same c e s (λ q. ground arith)

  slot-same :
      (slot : Option Slot) (s : Poller × W)
      → is_ptr ch slot ≡ false
      → dispatch_slot hr hw slot s ≡ dispatch_slot hr' hw' slot s
  slot-same none s a = refl
  slot-same (some slot) s a = ptr-same slot.ptr slot.revents s a

  ptr-Absent :
      (ptr : Option ℕ) (e n : ℕ) (s : Poller × W) → Off n s → Off n (dispatch_ptr hr hw ptr e s)
  ptr-Absent none e n s a = a
  ptr-Absent (some c) e n s a = dispatch-Absent c e n s a

  slot-Absent :
      (slot : Option Slot) (n : ℕ) (s : Poller × W) → Off n s → Off n (dispatch_slot hr hw slot s)
  slot-Absent none n s a = a
  slot-Absent (some slot) n s a = ptr-Absent slot.ptr slot.revents n s a

  -- A channel that is in none of the slots still to come is not called in the rest of a round:
  -- other callbacks for it would make no difference, where the callbacks that run put it into no
  -- slot.
  pub rounds-Absent :
      (n : ℕ) (s : Poller × W) → Absent ch n s.0.active_evs → rounds hr hw n s ≡ rounds hr' hw' n s
  unfolding rounds
  rounds-Absent zero (p, w) a = refl
  rounds-Absent (suc i) (p, w) a =
      rounds-Absent i (dispatch_slot hr hw slot here)
        (slot-Absent slot i here (λ j lt. a j (omega arith)))
      ∙ ap (rounds hr' hw' i) (slot-same slot here (a i (omega arith)))
    where
      slot : Option Slot
      slot = get_elem? p.active_evs i

      here : Poller × W
      here = (record p { last_active = pos i }, w)
