-- ===== src/Poller/Tests.antt =====
-- Rounds of the poller over two slots, where channel 9 is removed.
use tiny_network_repository.Prelude.{
  ◌+◌, ℕ, zero, suc, ◌≡◌, ◌≢◌, refl, arith, false, List, [], ◌∷◌, some, if◌then◌else◌, ◌==◌,
}
use tiny_network_repository.Prelude.Int.{pos, negsuc}
use tiny_network_repository.Poller.{
  Poller, Slot, dispatch, rounds, has, with_flag, without, loop_once, ready,
}
use tiny_network_repository.Poller.Slots.{Absent, AtMostOnce}
use tiny_network_repository.Poller.Visits.{visits, on_read, on_write, loop_once_lem}
use tiny_network_repository.Poller.Dispatch.{rounds-Absent}
use tiny_network_repository.Samples.{idle_poller}

flags : without (with_flag 1 4) 1 ≡ 4
unfolding without with_flag has
flags = refl

abbrev two_slots : List Slot
two_slots = record { ptr = some 9; revents = 1 } ∷ record { ptr = some 3; revents = 1 } ∷ []

abbrev busy : Poller
busy = record idle_poller {
  last_active = pos 1;
  live_channels = 9 ∷ 3 ∷ [];
  active_evs = two_slots;
}

once : AtMostOnce 9 2 two_slots
once zero zero h k e f = refl
once zero (suc zero) h k e f = cc
once zero (suc (suc j)) h k e f = absurd (omega arith)
once (suc zero) j h k e f = cc
once (suc (suc i)) j h k e f = absurd (omega arith)

-- Callbacks that log which channel they ran for, and ones that lose the log for channel 9.
abbrev log_channel : ℕ → Poller × List ℕ → Poller × List ℕ
log_channel c (p, w) = (p, c ∷ w)

abbrev log_but_nine : ℕ → Poller × List ℕ → Poller × List ℕ
log_but_nine c (p, w) = if c == 9 then (p, []) else (p, c ∷ w)

same_but_nine : (c : ℕ) (s : Poller × List ℕ) → c ≢ 9 → log_channel c s ≡ log_but_nine c s
same_but_nine c (p, w) ne = let test : (c == 9) ≡ false = ground arith in rw test

abbrev one_slot : List Slot
one_slot = record { ptr = some 3; revents = 1 } ∷ []

abbrev nine_gone : Poller
nine_gone = record busy { active_evs = one_slot }

absent : Absent 9 2 one_slot
absent zero h = refl
absent (suc j) h = refl

logged : (rounds log_channel log_channel 2 (busy, [])).1 ≡ 9 ∷ 3 ∷ []
unfolding rounds dispatch
logged = refl

rounds-Absent_example :
    rounds log_channel log_channel 2 (nine_gone, [])
    ≡ rounds log_but_nine log_but_nine 2 (nine_gone, [])
rounds-Absent_example =
    rounds-Absent log_channel log_channel log_but_nine log_but_nine 9 (λ c n s a. a) (λ c n s a. a)
      same_but_nine same_but_nine 2 (nine_gone, []) absent

-- Each callback logs its channel; that of a write adds 100.
abbrev log_read : ℕ → List ℕ → List ℕ
log_read c w = c ∷ w

abbrev log_write : ℕ → List ℕ → List ℕ
log_write c w = (c + 100) ∷ w

-- Channel 9 is readable and writable, and channel 3 has an error.
abbrev reported : List Slot
reported = record { ptr = some 9; revents = 5 } ∷ record { ptr = some 3; revents = 8 } ∷ []

visited : visits log_read log_write reported [] ≡ 109 ∷ 9 ∷ 3 ∷ []
unfolding has
visited = refl

loop_once_lem_example :
    (p' : Poller) × (loop_once
        (on_read log_read log_write)
        (on_write log_read log_write)
        (ready reported)
        (idle_poller, [])
      ≡ (p', visits log_read log_write reported []))
    × (p'.last_active ≡ negsuc 0)
    × (p'.live_channels ≡ [])
    × (p'.requests ≡ [])
loop_once_lem_example = loop_once_lem log_read log_write reported idle_poller []
