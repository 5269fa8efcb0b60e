-- ===== src/System/Right/Tasks.antt =====
-- A task of the thread pool keeps the invariant.
use mathlib.Core.Option
use mathlib.Core.Path.{subst}
use tiny_network_repository.Prelude.{
  ℕ, zero, suc, ◌≡◌, refl, sym, Bool, List, [], ◌∷◌, ◌++◌, Option, none, some, All, All-append,
}
use tiny_network_repository.Prelude.Outcome.{WhenOk, WhenOk->>=, WhenDone}
use tiny_network_repository.Codec.{Msg}
use tiny_network_repository.Poller.{CtlCall}
use tiny_network_repository.TcpConnection.{TcpConnection}
use tiny_network_repository.SendThread.{push_msg}
use tiny_network_repository.App.{answer}
use tiny_network_repository.App.Answer.{answer_lem}
use tiny_network_repository.System.{System, Who, Passing}
use tiny_network_repository.System.Right.{IsRight}
use tiny_network_repository.System.Passes.{pick, push_answer, running}
use tiny_network_repository.System.Run.{run_task, act}
use tiny_network_repository.System.Known.{IsKnown, queued, All-tasks, All-queued, IsSafe-pending}

-- The task that is taken out, and the others.
abbrev Picked : (Msg → Type 0) → Option (Msg × List Msg) → Type 0
Picked P none = Unit
Picked P (some (m, rest)) = P m × All P rest

pick-Picked : (P : Msg → Type 0) (k : ℕ) (ms : List Msg) → All P ms → Picked P (pick k ms)
pick-Picked P k [] h = tt
pick-Picked P zero (m ∷ ms) h = h
pick-Picked P (suc k) (m ∷ ms) (h, hs) = more (pick k ms) (pick-Picked P k ms hs)
  where
    more :
        (o : Option (Msg × List Msg))
        → Picked P o
        → Picked P (Option.map (λ (p : Msg × List Msg). (p.0, m ∷ p.1)) o)
    more none g = tt
    more (some (t, rest)) (g, gs) = (g, (h, gs))

-- What an answer is known for is what its message was known for.
IsKnown-answer :
    {asked : List Who} {conns : ℕ → TcpConnection} (m : Msg)
    → IsKnown asked conns m
    → WhenOk (IsKnown asked conns) (answer m)
IsKnown-answer {asked} {conns} m v =
    let (a, e, head, _, _, _, _) = answer_lem m in
    rw e (
      subst (IsKnown asked conns) (λ t. record { msg_head = sym head t; rpt = a.rpt })
        (record { peer = v.peer; asker = v.asker; past = v.past; same = v.same }))

pushed-IsRight :
    (n : ℕ) (s : System) (rest : List Msg) (a : Msg)
    → s.pass ≡ none
    → IsKnown s.asked s.pool.conns a
    → All (IsKnown s.asked s.pool.conns) rest
    → IsRight n s
    → IsRight n (push_answer rest s a)
unfolding push_msg
pushed-IsRight n s rest a free known others w =
    let P = IsKnown s.asked s.pool.conns in
    let queue = s.send.msg_event_queue in
    let old : All P queue = All-queued P s none free w.safe.known in
    let new : All P (queued s.pass (queue ++ (a ∷ []))) =
      subst (λ o. All P (queued o (queue ++ (a ∷ [])))) (sym free)
        (All-append P queue (a ∷ []) old (known, tt)) in
    record {
      safe = IsSafe-pending _ (All-append P rest _ others new) w.safe;
      sent = w.sent;
      flushed = w.flushed;
    }

running-IsRight :
    (n : ℕ) (s : System) (o : Option Passing) (t : Option (Msg × List Msg))
    → s.pass ≡ o
    → Picked (IsKnown s.asked s.pool.conns) t
    → IsRight n s
    → WhenDone (IsRight n) (running o t s)
running-IsRight n s (some p) t at h w = tt
running-IsRight n s none none at h w = tt
running-IsRight n s none (some (m, rest)) at (h, hs) w =
    WhenOk->>= (IsRight n) (answer m) _ (IsKnown-answer m h)
      (λ a known. pushed-IsRight n s rest a at known hs w)

pub run_task-IsRight :
    (ctl_ok : CtlCall → Bool) (k n : ℕ) (s : System)
    → IsRight n s
    → WhenDone (IsRight n) (act ctl_ok (run_task k) s)
unfolding act
run_task-IsRight ctl_ok k n s w =
    let P = IsKnown s.asked s.pool.conns in
    running-IsRight n s s.pass (pick k s.tasks) refl
      (pick-Picked P k s.tasks (All-tasks P s w.safe.known)) w
