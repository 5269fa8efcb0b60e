-- ===== src/Channel.antt =====
-- include/tiny_channel.h and net/tiny_channel.cxx: a descriptor with its events, registered at a
-- poller. A channel lies at the address `self`; `next_id` is the static counter of the constructor.
-- Each operation returns the channel and the poller; close returns also the descriptor that it
-- closed. The fields for the callbacks are the arguments of Poller.dispatch.
pub mod Events
pub mod Teardown
mod Tests
use tiny_network_repository.Prelude.{
  ℕ, zero, suc, ◌+◌, Bool, true, false, Option, none, some, if◌then◌else◌,
}
use tiny_network_repository.Prelude.Int.{ℤ, pos, negsuc}
use tiny_network_repository.Poller.{
  Channel, CtlCall, Poller, read_event, write_event, has, with_flag, without, add_channel,
  update_channel, remove_channel,
}

unfoldable pub create : (CtlCall → Bool) → ℕ → ℕ → ℤ → ℕ → Poller → Channel × Poller
unfolding add_channel
create ctl_ok self next_id fd events p = let ch = make in (ch, add_channel ctl_ok self ch p)
  where
    make : Channel
    make = record { id = next_id + 1; fd = fd; events = events }

abbrev pub positive : ℤ → Bool
positive (pos zero) = false
positive (pos (suc n)) = true
positive (negsuc n) = false

unfoldable pub close : ℕ → Channel → Poller → Channel × Poller × Option ℤ
unfolding remove_channel
close self ch p =
    if positive ch.fd
    then (record ch { fd = negsuc 0 }, remove_channel self p, some ch.fd)
    else (ch, p, none)

-- `m_events |= flag` or `m_events &= ~flag`
unfoldable pub switch : ℕ → Bool → Channel → Channel
unfolding with_flag without
switch flag enable ch =
    if enable
    then record ch { events = with_flag ch.events flag }
    else record ch { events = without ch.events flag }

unfoldable pub enable_read : ℕ → Bool → Channel → Poller → Channel × Poller
unfolding switch update_channel
enable_read self enable ch p =
    let ch' = switch read_event enable ch in (ch', update_channel self ch' p)

unfoldable pub enable_write : ℕ → Bool → Channel → Poller → Channel × Poller
unfolding switch update_channel
enable_write self enable ch p =
    let ch' = switch write_event enable ch in (ch', update_channel self ch' p)

unfoldable pub enable_read_write : ℕ → Bool → Bool → Channel → Poller → Channel × Poller
unfolding switch update_channel
enable_read_write self readable writable ch p =
    let ch' = switch write_event writable (switch read_event readable ch) in
    (ch', update_channel self ch' p)

unfoldable pub read_enabled : Channel → Bool
unfolding has
read_enabled ch = has ch.events read_event

unfoldable pub write_enabled : Channel → Bool
unfolding has
write_enabled ch = has ch.events write_event
