-- ===== src/Channel/Events.antt =====
-- Switching the events of a channel, and closing it.
use tiny_network_repository.Prelude.{
  ℕ, suc, ◌≡◌, refl, arith, Bool, false, ◌∙◌, ◌++◌, ◌∷◌, [], none, some,
}
use tiny_network_repository.Prelude.Int.{pos}
use tiny_network_repository.Poller.{
  Channel, Poller, modify, ask, member, rounds_left, read_event, write_event,
}
use tiny_network_repository.Poller.Slots.{Absent, AtMostOnce, remove_channel-Absent}
use tiny_network_repository.Channel.{
  switch, enable_read, enable_write, enable_read_write, read_enabled, write_enabled, close,
}

pub switch-read :
    (b : Bool) (ch : Channel)
    → (read_enabled (switch read_event b ch) ≡ b)
      × (write_enabled (switch read_event b ch) ≡ write_enabled ch)
unfolding switch read_enabled write_enabled
switch-read b ch = ground arith

pub switch-write :
    (b : Bool) (ch : Channel)
    → (write_enabled (switch write_event b ch) ≡ b)
      × (read_enabled (switch write_event b ch) ≡ read_enabled ch)
unfolding switch read_enabled write_enabled
switch-write b ch = ground arith

-- enableRead and enableWrite set the flag that they name and leave the other; enableReadWrite sets
-- both. Each asks the kernel once, with all the events of the channel as they are afterwards.
pub enable_lem :
    (self : ℕ) (r w : Bool) (ch : Channel) (p : Poller)
    → let (a, p₁) = enable_read self r ch p in
      let (b, p₂) = enable_write self w ch p in
      let (c, p₃) = enable_read_write self r w ch p in
      ((read_enabled a ≡ r)
        × (write_enabled a ≡ write_enabled ch)
        × (p₁.requests ≡ p.requests ++ (ask modify self a ∷ [])))
      × ((write_enabled b ≡ w)
          × (read_enabled b ≡ read_enabled ch)
          × (p₂.requests ≡ p.requests ++ (ask modify self b ∷ [])))
      × ((read_enabled c ≡ r)
          × (write_enabled c ≡ w)
          × (p₃.requests ≡ p.requests ++ (ask modify self c ∷ [])))
unfolding enable_read enable_write enable_read_write
enable_lem self r w ch p =
    let sr = switch-read r ch in
    let sw = switch-write w ch in
    let both = switch-write w (switch read_event r ch) in
    ((sr.0, sr.1, refl), (sw.0, sw.1, refl), (both.1 ∙ sr.0, both.0, refl))

-- A channel with a positive descriptor, in at most one pending slot, is closed once: its descriptor
-- goes to ::close, it is in no pending slot and not live any more, and a second close does nothing.
pub close_once :
    (self n : ℕ) (ch : Channel) (p : Poller)
    → ch.fd ≡ pos (suc n)
    → AtMostOnce self (rounds_left p.last_active) p.active_evs
    → let (ch', p', closed) = close self ch p in
      (closed ≡ some (pos (suc n)))
      × Absent self (rounds_left p.last_active) p'.active_evs
      × (member self p'.live_channels ≡ false)
      × (close self ch' p' ≡ (ch', p', none))
unfolding close
close_once self n ch p e once =
    let removed = remove_channel-Absent self p once in rw e (refl, removed.0, removed.1, refl)
