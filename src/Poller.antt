-- ===== src/Poller.antt =====
-- include/tiny_poller.h and net/tiny_poller.cxx: the epoll poller, and the fields of a channel that
-- it reads. A channel is known by its address. The calls of epoll_ctl are logged in `requests`, and
-- `ctl_ok` tells which of them the kernel accepts; what epoll_wait returns is an argument.
pub mod Slots
pub mod Dispatch
pub mod Visits
mod Tests
use tiny_network_repository.Prelude.{
  ℕ, zero, suc, ◌+◌, ◌-◌, ◌/◌, ◌%◌, Bool, true, false, not, ◌||◌, List, [], ◌∷◌, ◌++◌, Option, none,
  some, length, drop, get_elem?, set, if◌then◌else◌, ◌==◌,
}
use tiny_network_repository.Prelude.Int.{ℤ, pos, negsuc}

-- Flags: bit 0 is EPOLLIN, bit 2 EPOLLOUT, bits 3, 4 and 13 are EPOLLERR, EPOLLHUP, EPOLLRDHUP.
-- `has e m` is `e & m`, `with_flag e m` is `e | m` and `without e m` is `e & ~m`, at a power of two.
abbrev pub read_event : ℕ
read_event = 1

abbrev pub write_event : ℕ
write_event = 4

abbrev pub err_events : List ℕ
err_events = 8 ∷ 16 ∷ 8192 ∷ []

unfoldable pub has : ℕ → ℕ → Bool
has e m = (e / m) % 2 == 1

unfoldable pub with_flag : ℕ → ℕ → ℕ
unfolding has
with_flag e m = if has e m then e else e + m

unfoldable pub without : ℕ → ℕ → ℕ
unfolding has
without e m = if has e m then e - m else e

pub record Channel : Type 0 where
  pub id : ℕ
  pub fd : ℤ
  pub events : ℕ

-- An entry of `m_activeEvs`: `data.ptr` and `events`.
pub record Slot : Type 0 where
  pub ptr : Option ℕ
  pub revents : ℕ

pub data CtlOp : Type 0 where
  add modify : CtlOp

pub record CtlCall : Type 0 where
  pub op : CtlOp
  pub fd : ℤ
  pub events : ℕ
  pub ptr : ℕ

pub record Poller : Type 0 where
  pub last_active : ℤ
  pub live_channels : List ℕ
  pub active_evs : List Slot
  pub requests : List CtlCall

-- A `std::set` of addresses.
unfoldable pub member : ℕ → List ℕ → Bool
member x [] = false
member x (y ∷ ys) = x == y || member x ys

unfoldable pub set_insert : ℕ → List ℕ → List ℕ
set_insert x s = if member x s then s else x ∷ s

unfoldable pub set_erase : ℕ → List ℕ → List ℕ
set_erase x [] = []
set_erase x (y ∷ ys) = if x == y then set_erase x ys else y ∷ set_erase x ys

abbrev pub ask : CtlOp → ℕ → Channel → CtlCall
ask op self ch = record { op = op; fd = ch.fd; events = ch.events; ptr = self }

module _ (ctl_ok : CtlCall → Bool) where
  unfoldable pub add_channel : ℕ → Channel → Poller → Poller
  unfolding set_insert
  add_channel self ch p =
      let call = ask add self ch in
      let p' = record p { requests = p.requests ++ (call ∷ []) } in
      if ctl_ok call then record p' { live_channels = set_insert self p.live_channels } else p'

unfoldable pub update_channel : ℕ → Channel → Poller → Poller
update_channel self ch p = record p { requests = p.requests ++ (ask modify self ch ∷ []) }

abbrev pub holds : ℕ → Option ℕ → Bool
holds ch none = false
holds ch (some x) = ch == x

abbrev pub is_ptr : ℕ → Option Slot → Bool
is_ptr ch none = false
is_ptr ch (some s) = holds ch s.ptr

abbrev pub nulled : Option Slot → Slot
nulled none = record { ptr = none; revents = 0 }
nulled (some s) = record s { ptr = none }

-- The loop `for(i = m_lastActive; i >= 0; --i)` of removeChannel, with i + 1 rounds left.
unfoldable pub null_down : ℕ → ℕ → List Slot → List Slot
null_down ch zero evs = evs
null_down ch (suc i) evs =
    let rest = null_down ch i evs in
    if is_ptr ch (get_elem? evs i) then set evs i (nulled (get_elem? evs i)) else rest

abbrev pub rounds_left : ℤ → ℕ
rounds_left (pos i) = suc i
rounds_left (negsuc _) = 0

unfoldable pub remove_channel : ℕ → Poller → Poller
unfolding set_erase null_down
remove_channel self p = record p {
  live_channels = set_erase self p.live_channels;
  active_evs = null_down self (rounds_left p.last_active) p.active_evs;
}

-- What epoll_wait returns: the slots that it filled, or -1.
pub data Waited : Type 0 where
  ready : List Slot → Waited
  interrupted failed : Waited

abbrev any_of : ℕ → List ℕ → Bool
any_of e [] = false
any_of e (m ∷ ms) = has e m || any_of e ms

-- What callbacks do to the poller, and to whatever else the program keeps.
module _ {W : Type 0} (handle_read handle_write : ℕ → Poller × W → Poller × W) where
  -- The body of the loop of loopOnce, for a slot that is not null.
  unfoldable pub dispatch : ℕ → ℕ → Poller × W → Poller × W
  unfolding has with_flag
  dispatch ch revents s =
      let revents' = if any_of revents err_events then with_flag revents read_event else revents in
      let s' = if has revents' read_event then handle_read ch s else s in
      if has revents' write_event then handle_write ch s' else s'

  -- `if(ch)`
  abbrev dispatch_ptr : Option ℕ → ℕ → Poller × W → Poller × W
  dispatch_ptr none revents s = s
  dispatch_ptr (some ch) revents s = dispatch ch revents s

  abbrev dispatch_slot : Option Slot → Poller × W → Poller × W
  dispatch_slot none s = s
  dispatch_slot (some slot) s = dispatch_ptr slot.ptr slot.revents s

  -- `while(--m_lastActive >= 0)`, from `n`.
  unfoldable pub rounds : ℕ → Poller × W → Poller × W
  rounds zero (p, w) = (record p { last_active = negsuc 0 }, w)
  rounds (suc i) (p, w) =
      rounds i (dispatch_slot (get_elem? p.active_evs i) (record p { last_active = pos i }, w))

  unfoldable pub loop_once : Waited → Poller × W → Poller × W
  unfolding rounds
  loop_once interrupted (p, w) = (record p { last_active = negsuc 0 }, w)
  loop_once failed (p, w) = (record p { last_active = negsuc 0 }, w)
  loop_once (ready slots) (p, w) =
      rounds (length slots) (record p { active_evs = slots ++ drop (length slots) p.active_evs }, w)
