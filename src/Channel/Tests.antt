-- ===== src/Channel/Tests.antt =====
-- Runs of a channel, and the theorems at a concrete channel.
use tiny_network_repository.Prelude.{
  ℕ, zero, suc, ◌≡◌, refl, arith, true, false, List, [], ◌∷◌, none, some,
}
use tiny_network_repository.Prelude.Int.{ℤ, pos}
use tiny_network_repository.Poller.{Channel, Poller, Slot, member}
use tiny_network_repository.Poller.Slots.{Absent, AtMostOnce}
use tiny_network_repository.Channel.{read_enabled, close}
use tiny_network_repository.Channel.Events.{close_once}
use tiny_network_repository.Channel.Teardown.{destroy_poller, Torn, destroy_poller_lem}
use tiny_network_repository.Samples.{reading_channel, idle_poller}

reads : read_enabled reading_channel ≡ true
unfolding read_enabled
reads = refl

-- The channel is in the last pending slot, and is registered.
abbrev pending : List Slot
pending = record { ptr = some 3; revents = 1 } ∷ record { ptr = some 40; revents = 1 } ∷ []

abbrev busy : Poller
busy = record idle_poller { last_active = pos 1; live_channels = 40 ∷ 3 ∷ []; active_evs = pending }

once : AtMostOnce 40 2 pending
once zero j h k e f = cc
once (suc zero) zero h k e f = cc
once (suc zero) (suc zero) h k e f = refl
once (suc zero) (suc (suc j)) h k e f = absurd (omega arith)
once (suc (suc i)) j h k e f = absurd (omega arith)

close_once_example :
    let (ch', p', closed) = close 40 reading_channel busy in
    (closed ≡ some (pos 5))
    × Absent 40 2 p'.active_evs
    × (member 40 p'.live_channels ≡ false)
    × (close 40 ch' p' ≡ (ch', p', none))
close_once_example = close_once 40 4 reading_channel busy refl once

-- A poller with two live channels, with one descriptor.
abbrev two_live : Poller
two_live = record idle_poller { live_channels = 50 ∷ 40 ∷ [] }

destroy_poller_lem_example :
    (p' : Poller) × (channels' : ℕ → Channel) × (fds : List ℤ) × (destroy_poller 3 two_live
        (λ at. reading_channel)
      ≡ some (p', channels', fds))
    × (p'.live_channels ≡ [])
    × Torn true reading_channel (channels' 40) fds
unfolding member
destroy_poller_lem_example =
    destroy_poller_lem 3 two_live (λ at. reading_channel) 40 (λ y h. refl) (omega arith)
