-- ===== src/System/Right/Passes.antt =====
-- What the sending thread does keeps the invariant.

use mathlib.Core.Path.{subst}
use mathlib.Core.List.{Mem}
use tiny_network_repository.Prelude.{
  ℕ, ◌≡◌, refl, sym, inl, inr, Bool, List, [], ◌∷◌, ◌++◌, Option, none, some, ltb, if_lem, All,
  All-append, All_left, All_right,
}
use tiny_network_repository.Prelude.Outcome.{WhenDone, WhenDone-map}
use tiny_network_repository.Codec.{Msg}
use tiny_network_repository.Poller.{CtlCall}
use tiny_network_repository.TcpConnection.Output.{WriteResult}
use tiny_network_repository.SendThread.{Sending, send_one}
use tiny_network_repository.System.{System, Passing}
use tiny_network_repository.System.Right.{IsRight}
use tiny_network_repository.System.Passes.{
  now_sending, after_one, beginning_pass, send_from, end_from, ending_pass, sending_next,
}
use tiny_network_repository.System.Run.{begin_pass, send_next, end_pass, act}
use tiny_network_repository.System.Known.{IsKnown, under_way, All-tasks, All-queued, IsSafe-pending}
use tiny_network_repository.System.Changes.{IsOneSent, send_one-IsOneSent}

-- The same messages are under way when a pass takes the queue.
beginning_pass-IsRight :
    (n : ℕ) (s : System) (o : Option Passing)
    → s.pass ≡ o
    → IsRight n s
    → WhenDone (IsRight n) (beginning_pass o s)
beginning_pass-IsRight n s (some p) at w = tt
beginning_pass-IsRight n s none at w =
    let P = IsKnown s.asked s.pool.conns in
    let queue = s.send.msg_event_queue in
    let taken : All P queue = All-queued P s none at w.safe.known in
    if_lem (WhenDone (IsRight n)) (ltb 0 s.send.sem_event_queue)
      (λ e.
        if_lem (WhenDone (IsRight n)) (ltb 0 s.send.msg_event_queue_size)
          (λ f. record {
            safe =
                IsSafe-pending _
                  (All-append P s.tasks _ (All-tasks P s w.safe.known)
                    (All-append P queue [] taken tt))
                  w.safe;
            sent = w.sent;
            flushed = w.flushed;
          })
          (λ f. tt))
      (λ e. tt)

sent_one-IsRight :
    (n : ℕ) (s : System) (p : Passing) (script : List WriteResult) (m : Msg) (ms : List Msg)
    (w' : Sending)
    → s.pass ≡ some p
    → p.left ≡ m ∷ ms
    → IsOneSent n script s.asked (under_way s) m (now_sending s p.sending) w'
    → IsRight n s
    → IsRight n (after_one script m ms (now_sending s p.sending) s w')
sent_one-IsRight n s p script m ms w' at here one w =
    let P = IsKnown s.asked w'.conns in
    let queue = s.send.msg_event_queue in
    let all = one.safe.known in
    let pass : All P (p.left ++ p.sending.kept) = All-queued P s (some p) at all in
    let left : All P (m ∷ ms) = subst (All P) here (All_left P p.left p.sending.kept pass) in
    let kept : All P p.sending.kept = All_right P p.left p.sending.kept pass in
    let kept' : All P w'.kept = elim one.kept [
      | inl same ↦ subst (All P) (sym same) kept
      | inr (longer, _) ↦
          subst (All P) (sym longer) (All-append P p.sending.kept (m ∷ []) kept (left.0, tt))
    ] in
    record {
      safe =
          IsSafe-pending _
            (All-append P s.tasks (ms ++ w'.kept) (All-tasks P s all)
              (All-append P ms w'.kept left.1 kept'))
            one.safe;
      sent = All-append (λ x. Mem x s.asked) s.sent _ w.sent one.askers;
      flushed = w.flushed;
    }

send_from-IsRight :
    (n : ℕ) (script : List WriteResult) (s : System) (p : Passing) (left : List Msg)
    → s.pass ≡ some p
    → p.left ≡ left
    → IsRight n s
    → WhenDone (IsRight n) (send_from script left p s)
send_from-IsRight n script s p [] at here w = tt
send_from-IsRight n script s p (m ∷ ms) at here w =
    let P = IsKnown s.asked s.pool.conns in
    let queue = s.send.msg_event_queue in
    let pass : All P (p.left ++ p.sending.kept) = All-queued P s (some p) at w.safe.known in
    let known : All P (m ∷ ms) = subst (All P) here (All_left P p.left p.sending.kept pass) in
    let now = now_sending s p.sending in
    WhenDone-map (IsRight n) (send_one script m now) _
      (send_one-IsOneSent m now script w.safe known.0)
      (λ w' one. sent_one-IsRight n s p script m ms w' at here one w)

pub send_next-IsRight :
    (ctl_ok : CtlCall → Bool) (script : List WriteResult) (n : ℕ) (s : System)
    → IsRight n s
    → WhenDone (IsRight n) (act ctl_ok (send_next script) s)
unfolding act
send_next-IsRight ctl_ok script n s w = passing s.pass refl
  where
    passing : (o : Option Passing) → s.pass ≡ o → WhenDone (IsRight n) (sending_next script o s)
    passing none at = tt
    passing (some p) at = send_from-IsRight n script s p p.left at refl w

pub begin_pass-IsRight :
    (ctl_ok : CtlCall → Bool) (n : ℕ) (s : System)
    → IsRight n s
    → WhenDone (IsRight n) (act ctl_ok begin_pass s)
unfolding act
begin_pass-IsRight ctl_ok n s w = beginning_pass-IsRight n s s.pass refl w

ended-IsRight :
    (n : ℕ) (s : System) (p : Passing) (left : List Msg)
    → s.pass ≡ some p
    → p.left ≡ left
    → IsRight n s
    → WhenDone (IsRight n) (end_from left p s)
ended-IsRight n s p (m ∷ ms) at here w = tt
ended-IsRight n s p [] at here w =
    let P = IsKnown s.asked s.pool.conns in
    let queue = s.send.msg_event_queue in
    let pass : All P (p.left ++ p.sending.kept) = All-queued P s (some p) at w.safe.known in
    record {
      safe =
          IsSafe-pending _
            (All-append P s.tasks p.sending.kept (All-tasks P s w.safe.known)
              (All_right P p.left p.sending.kept pass))
            w.safe;
      sent = w.sent;
      flushed = w.flushed;
    }

pub end_pass-IsRight :
    (ctl_ok : CtlCall → Bool) (n : ℕ) (s : System)
    → IsRight n s
    → WhenDone (IsRight n) (act ctl_ok end_pass s)
unfolding act
end_pass-IsRight ctl_ok n s w = passing s.pass refl
  where
    passing : (o : Option Passing) → s.pass ≡ o → WhenDone (IsRight n) (ending_pass o s)
    passing none at = tt
    passing (some p) at = ended-IsRight n s p p.left at refl w
