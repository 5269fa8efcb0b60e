-- ===== src/System/Uninterrupted.antt =====
-- A pass of the sending thread that no other thread interrupts.

use tiny_network_repository.Prelude.{
  ℕ, ◌+◌, ◌≡◌, ◌∙◌, ap, Bool, true, List, [], ◌∷◌, none, some, if◌then◌else◌, ltb,
}
use tiny_network_repository.Prelude.Outcome.{ok}
use tiny_network_repository.Codec.{Msg}
use tiny_network_repository.Poller.{CtlCall}
use tiny_network_repository.TcpConnection.Output.{WriteResult}
use tiny_network_repository.System.{System}
use tiny_network_repository.System.Passes.{beginning_pass, begun}
use tiny_network_repository.System.Run.{Action, begin_pass, send_next, end_pass, act}

-- The actions of a pass over the messages, with what ::write returns from the k-th on.
abbrev pub one_pass : (ℕ → List WriteResult) → ℕ → List Msg → List Action
one_pass scripts k [] = end_pass ∷ []
one_pass scripts k (m ∷ ms) = send_next (scripts k) ∷ one_pass scripts (k + 1) ms

module _ (ctl_ok : CtlCall → Bool) where
  pub begins :
      (s : System)
      → s.pass ≡ none
      → ltb 0 s.send.sem_event_queue ≡ true
      → ltb 0 s.send.msg_event_queue_size ≡ true
      → act ctl_ok begin_pass s ≡ some (ok (begun s))
  unfolding act
  begins s free signal some_left =
      ap (λ o. beginning_pass o s) free
      ∙ ap
          (λ (b : Bool).
            if b
            then (if ltb 0 s.send.msg_event_queue_size then some (ok (begun s)) else none)
            else none)
          signal
      ∙ ap (λ (b : Bool). if b then some (ok (begun s)) else none) some_left
