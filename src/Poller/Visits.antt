-- ===== src/Poller/Visits.antt =====
-- A round of events: which callbacks run, in which order.
use tiny_network_repository.Prelude.{
  ℕ, zero, suc, ◌≡◌, refl, sym, ◌∙◌, ap, arith, true, ◌||◌, List, [], ◌∷◌, ◌++◌, Option, none, some,
  get_elem?, length, take, drop, take-append_le, take_all, if◌then◌else◌,
}
use tiny_network_repository.Prelude.Int.{pos, negsuc}
use tiny_network_repository.Poller.{
  Poller, Slot, dispatch, dispatch_slot, dispatch_ptr, rounds, loop_once, ready, has, with_flag,
  any_of, err_events, read_event, write_event,
}

module _ {W : Type 0} (f g : ℕ → W → W) where
  -- The read callback runs for readable channels and for errors, then the write callback for writable
  -- ones; a null slot is passed over.
  abbrev pub visit_ptr : Option ℕ → ℕ → W → W
  visit_ptr none revents w = w
  visit_ptr (some ch) revents w =
      let w' = if has revents read_event || any_of revents err_events then f ch w else w in
      if has revents write_event then g ch w' else w'

  -- The slots from the last to the first.
  abbrev pub visits : List Slot → W → W
  visits [] w = w
  visits (s ∷ rest) w = visit_ptr s.ptr s.revents (visits rest w)

  abbrev visit_at : Option Slot → W → W
  visit_at none w = w
  visit_at (some s) w = visit_ptr s.ptr s.revents w

  visits_last :
      (i : ℕ) (evs : List Slot) (w : W)
      → visits (take (suc i) evs) w ≡ visits (take i evs) (visit_at (get_elem? evs i) w)
  visits_last zero [] w = refl
  visits_last (suc i) [] w = refl
  visits_last zero (s ∷ rest) w = refl
  visits_last (suc i) (s ∷ rest) w = ap (visit_ptr s.ptr s.revents) (visits_last i rest w)

  abbrev pub on_read : ℕ → Poller × W → Poller × W
  on_read ch (p, w) = (p, f ch w)

  abbrev pub on_write : ℕ → Poller × W → Poller × W
  on_write ch (p, w) = (p, g ch w)

  with_read :
      (r : ℕ)
      → (has (with_flag r read_event) read_event ≡ true)
        × (has (with_flag r read_event) write_event ≡ has r write_event)
  unfolding has with_flag
  with_read r = ground arith

  dispatch-visits :
      (ch r : ℕ) (p : Poller) (w : W)
      → dispatch on_read on_write ch r (p, w) ≡ (p, visit_ptr (some ch) r w)
  unfolding dispatch
  dispatch-visits ch r p w = ground (arith, with_read r)

  slot_visits :
      (o : Option Slot) (p : Poller) (w : W)
      → dispatch_slot on_read on_write o (p, w) ≡ (p, visit_at o w)
  slot_visits none p w = refl
  slot_visits (some s) p w = in_ptr s.ptr
    where
      in_ptr :
          (o : Option ℕ)
          → dispatch_ptr on_read on_write o s.revents (p, w) ≡ (p, visit_ptr o s.revents w)
      in_ptr none = refl
      in_ptr (some ch) = dispatch-visits ch s.revents p w

  rounds-visits :
      (n : ℕ) (p : Poller) (w : W)
      → rounds on_read on_write n (p, w)
        ≡ (record p { last_active = negsuc 0 }, visits (take n p.active_evs) w)
  unfolding rounds
  rounds-visits zero p w = refl
  rounds-visits (suc i) p w =
      ap (rounds on_read on_write i)
        (slot_visits (get_elem? p.active_evs i) (record p { last_active = pos i }) w)
      ∙ rounds-visits i (record p { last_active = pos i }) (visit_at (get_elem? p.active_evs i) w)
      ∙ ap (λ v. (record p { last_active = negsuc 0 }, v)) (sym (visits_last i p.active_evs w))

  -- Where callbacks leave the poller alone, a round with what epoll_wait filled in visits the slots
  -- from the last to the first: for one that is not null it runs the read callback if the channel
  -- is readable or has an error, then the write callback if it is writable. Then no slot is
  -- pending, and the live channels and the requests are as they were.
  pub loop_once_lem :
      (slots : List Slot) (p : Poller) (w : W)
      → (p' : Poller) × (loop_once on_read on_write (ready slots) (p, w) ≡ (p', visits slots w))
        × (p'.last_active ≡ negsuc 0)
        × (p'.live_channels ≡ p.live_channels)
        × (p'.requests ≡ p.requests)
  unfolding loop_once
  loop_once_lem slots p w =
      let evs = slots ++ drop (length slots) p.active_evs in
      let whole : take (length slots) evs ≡ slots =
        take-append_le (length slots) slots (drop (length slots) p.active_evs) (omega arith)
        ∙ take_all (length slots) slots (omega arith) in
      (
        record p { last_active = negsuc 0; active_evs = evs },
        rounds-visits (length slots) (record p { active_evs = evs }) w
            ∙ ap (λ l. (record p { last_active = negsuc 0; active_evs = evs }, visits l w)) whole,
        refl,
        refl,
        refl,
      )
