-- ===== src/System/Tally/Tasks.antt =====
-- A task of the thread pool counts as before when it has become an answer.
use mathlib.Core.Option
use tiny_network_repository.Prelude.{
  ℕ, zero, suc, ◌≡◌, refl, ap, arith, List, [], ◌∷◌, Option, none, some,
}
use tiny_network_repository.Prelude.Outcome.{WhenDone}
use tiny_network_repository.Codec.{Msg, MsgHead}
use tiny_network_repository.SendThread.{push_msg}
use tiny_network_repository.App.Answer.{answer_lem}
use tiny_network_repository.System.{System, Passing}
use tiny_network_repository.System.Passes.{pick, push_answer, running}
use tiny_network_repository.System.Tally.{tally, heads, IsCounted, tally-heads, tally-under_way}

module _ (h : MsgHead) where
  -- The task that is taken out and the others count as all did.
  abbrev Parted : List Msg → Option (Msg × List Msg) → Type 0
  Parted ms none = Unit
  Parted ms (some (m, rest)) = tally h (heads (m ∷ rest)) ≡ tally h (heads ms)

  pick-Parted : (k : ℕ) (ms : List Msg) → Parted ms (pick k ms)
  pick-Parted k [] = tt
  pick-Parted zero (m ∷ ms) = refl
  pick-Parted (suc k) (m ∷ ms) = more (pick k ms) (pick-Parted k ms)
    where
      more :
          (o : Option (Msg × List Msg))
          → Parted ms o
          → Parted (m ∷ ms) (Option.map (λ (p : Msg × List Msg). (p.0, m ∷ p.1)) o)
      more none e = tt
      more (some (t, rest)) e = omega (arith, e)

  pushed-IsCounted :
      (s : System) (m : Msg) (rest : List Msg) (a : Msg)
      → s.pass ≡ none
      → tally h (heads (m ∷ rest)) ≡ tally h (heads s.tasks)
      → a.msg_head ≡ m.msg_head
      → IsCounted h s
      → IsCounted h (push_answer rest s a)
  unfolding push_msg
  pushed-IsCounted s m rest a free parted same le =
      let one : tally h (heads (a ∷ [])) ≡ tally h (heads (m ∷ [])) =
        ap (λ k. tally h (k ∷ [])) same in
      omega (
        arith,
        le,
        parted,
        one,
        tally-under_way h s none free,
        tally-under_way h (push_answer rest s a) none free,
        tally-heads h s.send.msg_event_queue (a ∷ []),
      )

  running-IsCounted :
      (s : System) (o : Option Passing) (t : Option (Msg × List Msg))
      → s.pass ≡ o
      → Parted s.tasks t
      → IsCounted h s
      → WhenDone (IsCounted h) (running o t s)
  running-IsCounted s (some p) t at e le = tt
  running-IsCounted s none none at e le = tt
  running-IsCounted s none (some (m, rest)) at e le =
      let (a, done, same, _, _, _, _) = answer_lem m in
      rw done (pushed-IsCounted s m rest a at e same le)

  pub run_task-IsCounted :
      (k : ℕ) (s : System)
      → IsCounted h s
      → WhenDone (IsCounted h) (running s.pass (pick k s.tasks) s)
  run_task-IsCounted k s = running-IsCounted s s.pass (pick k s.tasks) refl (pick-Parted k s.tasks)
