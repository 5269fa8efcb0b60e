-- ===== src/Channel/Teardown.antt =====
-- The constructor and the destructor of EpollPoller in net/tiny_poller.cxx; the latter closes every
-- live channel, the one with the lowest address first. `fuel` bounds its loop.
use mathlib.Core.Path.{subst}
use tiny_network_repository.Prelude.{
  ℕ, zero, suc, ◌≤◌, ◌<◌, ◌≡◌, ◌⊎◌, inl, inr, refl, sym, ◌∙◌, ap, arith, Bool, true, false, not,
  ◌||◌, ◌&&◌, List, [], ◌∷◌, Option, none, some, if◌then◌else◌, ltb, ◌==◌, length, Bool-cases,
}
use tiny_network_repository.Prelude.Int.{ℤ, negsuc}
use tiny_network_repository.Poller.{Channel, Poller, member, set_erase, remove_channel}
use tiny_network_repository.Channel.{close, positive}

-- What epoll_wait has not filled yet is left out.
unfoldable pub create_poller : Poller
create_poller = record {
  last_active = negsuc 0;
  live_channels = [];
  active_evs = [];
  requests = [];
}

-- `*m_liveChannels.begin()`
abbrev pub lowest : ℕ → List ℕ → ℕ
lowest x [] = x
lowest x (y ∷ ys) = let rest = lowest y ys in if ltb x rest then x else rest

abbrev pub set_channel : (ℕ → Channel) → ℕ → Channel → ℕ → Channel
set_channel channels at ch x = if x == at then ch else channels x

abbrev pub and_closed :
    Option ℤ → Option (Poller × (ℕ → Channel) × List ℤ) → Option (Poller × (ℕ → Channel) × List ℤ)
and_closed fd none = none
and_closed none (some out) = some out
and_closed (some fd) (some (p, channels, fds)) = some (p, channels, fd ∷ fds)

abbrev pub next_live :
    (Poller → (ℕ → Channel) → Option (Poller × (ℕ → Channel) × List ℤ))
    → List ℕ
    → Poller
    → (ℕ → Channel)
    → Option (Poller × (ℕ → Channel) × List ℤ)
next_live more [] p channels = some (p, channels, [])
next_live more (x ∷ xs) p channels =
    let at = lowest x xs in
    let (ch, p', fd) = close at (channels at) p in
    and_closed fd (more p' (set_channel channels at ch))

-- ~EpollPoller, and the descriptors that are closed; none says that it still runs.
unfoldable pub destroy_poller :
    ℕ → Poller → (ℕ → Channel) → Option (Poller × (ℕ → Channel) × List ℤ)
unfolding close
destroy_poller zero p channels = none
destroy_poller (suc fuel) p channels = next_live (destroy_poller fuel) p.live_channels p channels

member-lowest : (x : ℕ) (ys : List ℕ) → member (lowest x ys) (x ∷ ys) ≡ true
unfolding member
member-lowest x [] = ground arith
member-lowest x (y ∷ ys) = ground (arith, member-lowest y ys)

member-set_erase_other :
    (x y : ℕ) (s : List ℕ) → member y (set_erase x s) ≡ not (y == x) && member y s
unfolding member set_erase
member-set_erase_other x y [] = ground arith
member-set_erase_other x y (z ∷ s) = ground (arith, member-set_erase_other x y s)

length-set_erase : (x : ℕ) (s : List ℕ) → length (set_erase x s) ≤ length s
unfolding set_erase
length-set_erase x [] = omega arith
length-set_erase x (y ∷ s) = ground (arith, length-set_erase x s)

length-set_erase-member :
    (x : ℕ) (s : List ℕ) → member x s ≡ true → length (set_erase x s) < length s
unfolding set_erase member
length-set_erase-member x [] h = cc
length-set_erase-member x (y ∷ s) h = elim (Bool-cases (x == y)) [
  | inl e ↦ rw e (omega (arith, length-set_erase x s))
  | inr e ↦ rw e (omega (arith, length-set_erase-member x s (in_rest e h)))
]
  where
    in_rest : x == y ≡ false → x == y || member x s ≡ true → member x s ≡ true
    in_rest off there = sym (ap (λ b. b || member x s) off) ∙ there

-- One of the descriptors is `fd`.
abbrev pub IsClosed : ℤ → List ℤ → Type 0
IsClosed fd [] = ⊥
IsClosed fd (x ∷ xs) = (fd ≡ x) ⊎ IsClosed fd xs

-- What the destructor comes to for a channel: one that was live is closed, another one is as it was.
abbrev pub Torn : Bool → Channel → Channel → List ℤ → Type 0
Torn true before after fds = (after.fd ≡ negsuc 0) × IsClosed before.fd fds
Torn false before after fds = after ≡ before

close_live :
    (at : ℕ) (ch : Channel) (p : Poller)
    → positive ch.fd ≡ true
    → close at ch p ≡ (record ch { fd = negsuc 0 }, remove_channel at p, some ch.fd)
unfolding close
close_live at ch p h = rw h

-- The first channel that is closed is `at`, if `here`; the others follow.
Torn-closed :
    (here live : Bool) (before ch after : Channel) (fd : ℤ) (fds : List ℤ)
    → ch.fd ≡ negsuc 0
    → (here ≡ true → live ≡ true)
    → (here ≡ true → before.fd ≡ fd)
    → Torn (not here && live) (if here then ch else before) after fds
    → Torn live before after (fd ∷ fds)
Torn-closed true true before ch after fd fds off known same t =
    (ap (λ (c : Channel). c.fd) t ∙ off, inl (same refl))
Torn-closed true false before ch after fd fds off known same t = cc (known refl)
Torn-closed false true before ch after fd fds off known same (t, closed) = (t, inr closed)
Torn-closed false false before ch after fd fds off known same t = t

still_open :
    (here live : Bool) (before ch : Channel)
    → (live ≡ true → positive before.fd ≡ true)
    → not here && live ≡ true
    → positive (if here then ch else before).fd ≡ true
still_open true live before ch open_before h = cc
still_open false live before ch open_before h = open_before h

eq_of_test : (y at : ℕ) → y == at ≡ true → y ≡ at
eq_of_test y at h = ground arith

live_after :
    (at : ℕ) (p : Poller) → (remove_channel at p).live_channels ≡ set_erase at p.live_channels
unfolding remove_channel
live_after at p = refl

abbrev Result : Type 0
Result = Option (Poller × (ℕ → Channel) × List ℤ)

AllOpen : Poller → (ℕ → Channel) → Type 0
AllOpen p channels = (y : ℕ) → member y p.live_channels ≡ true → positive (channels y).fd ≡ true

IsTornDown : Poller → (ℕ → Channel) → Result → Type 0
IsTornDown p channels out =
    (p' : Poller) × (channels' : ℕ → Channel) × (fds : List ℤ) × (out ≡ some (p', channels', fds))
    × (p'.live_channels ≡ [])
    × ((y : ℕ) → Torn (member y p.live_channels) (channels y) (channels' y) fds)

first_live :
    (more : Poller → (ℕ → Channel) → Result) (p : Poller) (channels : ℕ → Channel)
    → AllOpen p channels
    → ((q : Poller) (cs : ℕ → Channel)
        → AllOpen q cs
        → length q.live_channels < length p.live_channels
        → IsTornDown q cs (more q cs))
    → (live : List ℕ) → p.live_channels ≡ live
    → IsTornDown p channels (next_live more live p channels)
unfolding AllOpen IsTornDown
first_live more p channels opened ih [] e =
    (p, channels, [], refl, e, λ y. rw e (unfold member in refl))
first_live more p channels opened ih (x ∷ xs) e =
    let at = lowest x xs in
    let ch : Channel = record (channels at) { fd = negsuc 0 } in
    let p₁ = remove_channel at p in
    let known : member at p.live_channels ≡ true = ap (member at) e ∙ member-lowest x xs in
    let closes = close_live at (channels at) p (opened at known) in
    let left =
      λ (y : ℕ). ap (member y) (live_after at p) ∙ member-set_erase_other at y p.live_channels in
    let shorter = length-set_erase-member at p.live_channels known in
    let (p', channels', fds, done, empty, torn) =
      ih p₁ (set_channel channels at ch)
        (λ y h.
          still_open (y == at) (member y p.live_channels) (channels y) ch (opened y)
            (sym (left y) ∙ h))
        (omega (arith, ap length (live_after at p), shorter)) in
    (
      p',
      channels',
      (channels at).fd ∷ fds,
      rw (closes, done) refl,
      empty,
      λ y.
          Torn-closed (y == at) (member y p.live_channels) (channels y) ch (channels' y)
            (channels at).fd fds refl
            (λ h. ap (λ z. member z p.live_channels) (eq_of_test y at h) ∙ known)
            (λ h. ap (λ z. (channels z).fd) (eq_of_test y at h))
            (subst (λ b. Torn b (set_channel channels at ch y) (channels' y) fds) (left y)
              (torn y)),
    )

destroy_all :
    (fuel : ℕ) (p : Poller) (channels : ℕ → Channel)
    → AllOpen p channels
    → length p.live_channels < fuel
    → IsTornDown p channels (destroy_poller fuel p channels)
unfolding destroy_poller
destroy_all zero p channels opened lt = absurd (omega arith)
destroy_all (suc fuel) p channels opened lt =
    first_live (destroy_poller fuel) p channels opened
      (λ q cs open_q shorter. destroy_all fuel q cs open_q (omega arith)) p.live_channels refl

-- Where every live channel has a positive descriptor, and with more rounds than there are live
-- channels, the destructor of the poller ends: no channel is live any more, a channel that was live
-- has its descriptor closed and replaced by -1, and another one is as it was.
pub destroy_poller_lem :
    (fuel : ℕ) (p : Poller) (channels : ℕ → Channel) (x : ℕ)
    → ((y : ℕ) → member y p.live_channels ≡ true → positive (channels y).fd ≡ true)
    → length p.live_channels < fuel
    → (p' : Poller) × (channels' : ℕ → Channel) × (fds : List ℤ) × (destroy_poller fuel p channels
        ≡ some (p', channels', fds))
      × (p'.live_channels ≡ [])
      × Torn (member x p.live_channels) (channels x) (channels' x) fds
unfolding AllOpen IsTornDown
destroy_poller_lem fuel p channels x opened lt =
    let (p', channels', fds, done, empty, torn) = destroy_all fuel p channels opened lt in
    (p', channels', fds, done, empty, torn x)
