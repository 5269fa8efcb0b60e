-- ===== src/System/Answered.antt =====
-- A server that can answer does.
use mathlib.Core.Option
use mathlib.Core.Path.{subst}
use tiny_network_repository.Prelude.{
  ℕ, ◌+◌, ◌≡◌, refl, sym, ◌∙◌, ap, arith, not, Bool, true, false, inl, inr, List, [], ◌∷◌, ◌++◌,
  none, some, length, if◌then◌else◌, lt→ltb, ◌==◌, append_assoc, append-nil, length-append,
}
use tiny_network_repository.Prelude.Outcome.{ok, ◌>>=◌}
use tiny_network_repository.Codec.{Msg, encode}
use tiny_network_repository.Poller.{CtlCall}
use tiny_network_repository.TcpConnection.{TcpConnection}
use tiny_network_repository.TcpConnection.Output.{WriteResult}
use tiny_network_repository.SendThread.{
  Sending, send_one, erase_msg, after_pass, take_signal, no_sending, push_msg,
}
use tiny_network_repository.SendThread.Pass.{
  is_current, AllSendable, IsSendable, as_IsReady, send_taken, sent, send_one_done,
  send_one_expired,
}
use tiny_network_repository.App.{answer}
use tiny_network_repository.System.{System, Who}
use tiny_network_repository.System.Passes.{
  now_sending, replied, is_taken, receipt, after_one, sending_next, ending_pass, send_state,
  from_send, push_answer, pick, running, begun,
}
use tiny_network_repository.System.Run.{run_task, begin_pass, send_next, act, and_on, runs}
use tiny_network_repository.System.Uninterrupted.{one_pass, begins}

-- Those who are to get the current messages, each as it is the peer of its connection.
abbrev pub due : (ℕ → TcpConnection) → List Msg → List Who
due conns [] = []
due conns (m ∷ ms) =
    if is_current conns m
    then record { head = m.msg_head; peer = (conns m.msg_head.tcp_conn).peer } ∷ due conns ms
    else due conns ms

due-expired :
    (conns : ℕ → TcpConnection) (m : Msg) (ms : List Msg)
    → is_current conns m ≡ false
    → due conns (m ∷ ms) ≡ due conns ms
due-expired conns m ms e = rw e refl

due-current :
    (conns : ℕ → TcpConnection) (m : Msg) (ms : List Msg)
    → is_current conns m ≡ true
    → due conns (m ∷ ms)
      ≡ record { head = m.msg_head; peer = (conns m.msg_head.tcp_conn).peer } ∷ due conns ms
due-current conns m ms e = rw e refl

-- After a pass: the answers went out, the queue holds what was kept, and the connections are as they
-- were.
pub record HasAnswered (before : System) (dues : List Who) (kept : List Msg) (after : System)
    : Type 0 where
  pub sent : after.sent ≡ before.sent ++ dues
  pub queue : after.send.msg_event_queue ≡ kept
  pub free : after.pass ≡ none
  pub tasks : after.tasks ≡ before.tasks
  pub conns : after.pool.conns ≡ before.pool.conns

receipt-expired :
    (script : List WriteResult) (m : Msg) (w : Sending) → receipt script m w (erase_msg w) ≡ []
receipt-expired script m w =
    let itself : (length w.wire == length w.wire) ≡ true = ground arith in rw itself refl

different : (a b : ℕ) → a ≡ b + 1 → (a == b) ≡ false
different a b e = ground arith

receipt-sent :
    (script : List WriteResult) (m : Msg) (w : Sending)
    → IsSendable w.conns script m
    → receipt script m w (sent m w)
      ≡ record { head = m.msg_head; peer = (w.conns m.msg_head.tcp_conn).peer } ∷ []
receipt-sent script m w v =
    let longer =
      different (length (sent m w).wire) (length w.wire) (length-append w.wire (_ ∷ [])) in
    let (b, r, enc, done, took) = send_taken script m w (as_IsReady v) v.channel v.direct in
    let taken : is_taken (replied script m w (encode m.rpt)) ≡ true =
      ap (λ o. is_taken (replied script m w o)) enc ∙ ap is_taken done ∙ ap not took in
    rw (longer, taken) refl

-- One more message before the others.
HasAnswered-one :
    (script : List WriteResult) (m : Msg) (ms : List Msg) (s s' : System) (w w' : Sending)
    (dues one : List Who)
    → now_sending s w ≡ w
    → w'.conns ≡ w.conns
    → receipt script m w w' ≡ one
    → HasAnswered (after_one script m ms w s w') dues w.kept s'
    → HasAnswered s (one ++ dues) w.kept s'
HasAnswered-one script m ms s s' w w' dues one now same e v = record {
  sent = v.sent ∙ ap (λ r. (s.sent ++ r) ++ dues) e ∙ append_assoc s.sent one dues;
  queue = v.queue;
  free = v.free;
  tasks = v.tasks;
  conns = v.conns ∙ same ∙ sym (ap (λ (x : Sending). x.conns) now);
}

module _ (ctl_ok : CtlCall → Bool) (scripts : ℕ → List WriteResult) where
  one_sent :
      (k : ℕ) (m : Msg) (ms : List Msg) (s : System) (w w' : Sending)
      → s.pass ≡ some (record { left = m ∷ ms; sending = w })
      → now_sending s w ≡ w
      → send_one (scripts k) m w ≡ some (ok w')
      → act ctl_ok (send_next (scripts k)) s ≡ some (ok (after_one (scripts k) m ms w s w'))
  unfolding act
  one_sent k m ms s w w' at now done =
      ap (λ o. sending_next (scripts k) o s) at
      ∙ ap
          (λ v.
            Option.map (λ o. o >>= λ v'. ok (after_one (scripts k) m ms v s v'))
              (send_one (scripts k) m v))
          now
      ∙ ap (Option.map (λ o. o >>= λ v'. ok (after_one (scripts k) m ms w s v'))) done

  ran_task :
      (i : ℕ) (m : Msg) (rest : List Msg) (s : System) {a : Msg}
      → s.pass ≡ none
      → pick i s.tasks ≡ some (m, rest)
      → answer m ≡ ok a
      → act ctl_ok (run_task i) s ≡ some (ok (push_answer rest s a))
  unfolding act
  ran_task i m rest s free taken done =
      ap (λ o. running o (pick i s.tasks) s) free
      ∙ ap (λ t. running none t s) taken
      ∙ ap (λ o. some (o >>= λ b. ok (push_answer rest s b))) done

  sends_all :
      (k : ℕ) (ms : List Msg) (s : System) (w : Sending)
      → s.pass ≡ some (record { left = ms; sending = w })
      → now_sending s w ≡ w
      → AllSendable w.conns scripts k ms
      → (s' : System) × (runs ctl_ok (one_pass scripts k ms) s ≡ some (ok s'))
        × HasAnswered s (due w.conns ms) w.kept s'
  unfolding runs act
  sends_all k [] s w at now h = (
    record (from_send (after_pass (send_state s) w).1 s) { pass = none },
    ap (λ o. and_on (λ x. some (ok x)) (ending_pass o s)) at
        ∙ ap (λ v. some (ok (record (from_send (after_pass (send_state s) v).1 s) { pass = none })))
            now,
    record {
      sent = sym (append-nil s.sent);
      queue = refl;
      free = refl;
      tasks = refl;
      conns = sym (ap (λ (x : Sending). x.conns) now);
    },
  )
  sends_all k (m ∷ ms) s w at now (inl old, hs) =
      let w' = erase_msg w in
      let s₁ = after_one (scripts k) m ms w s w' in
      let (s', ran, v) = sends_all (k + 1) ms s₁ w' refl refl hs in
      (
        s',
        ap (and_on (runs ctl_ok (one_pass scripts (k + 1) ms)))
              (one_sent k m ms s w w' at now (send_one_expired (scripts k) m w old))
            ∙ ran,
        subst (λ d. HasAnswered s d w.kept s') (sym (due-expired w.conns m ms old))
            (HasAnswered-one (scripts k) m ms s s' w w' (due w.conns ms) [] now refl
              (receipt-expired (scripts k) m w) v),
      )
  sends_all k (m ∷ ms) s w at now (inr (cur, ready), hs) =
      let w' = sent m w in
      let s₁ = after_one (scripts k) m ms w s w' in
      let (s', ran, v) = sends_all (k + 1) ms s₁ w' refl refl hs in
      (
        s',
        ap (and_on (runs ctl_ok (one_pass scripts (k + 1) ms)))
              (one_sent k m ms s w w' at now (send_one_done (scripts k) m w cur ready))
            ∙ ran,
        subst (λ d. HasAnswered s d w.kept s') (sym (due-current w.conns m ms cur))
            (HasAnswered-one (scripts k) m ms s s' w w' (due w.conns ms) (_ ∷ []) now refl
              (receipt-sent (scripts k) m w ready) v),
      )

  -- Where no pass is going on, one of the tasks is run, and then a pass begins, has one part for
  -- each message of the queue, and ends: if each of these messages is for an earlier peer, or can
  -- be encoded and is for a connection that sends directly, to a socket that takes the bytes, then
  -- all this happens; `send` takes the answers to the current ones, the new one among them, in
  -- order, each for the peer that its connection has; the queue is empty, the task is gone, and the
  -- connections are as they were.
  pub task_answered :
      (i : ℕ) (m : Msg) (rest : List Msg) (s : System) {a : Msg}
      → s.pass ≡ none
      → pick i s.tasks ≡ some (m, rest)
      → answer m ≡ ok a
      → AllSendable s.pool.conns scripts 0 (s.send.msg_event_queue ++ (a ∷ []))
      → (s' : System) × (runs ctl_ok
            (run_task i ∷ begin_pass ∷ one_pass scripts 0 (s.send.msg_event_queue ++ (a ∷ [])))
            s
          ≡ some (ok s'))
        × (s'.sent ≡ s.sent ++ due s.pool.conns (s.send.msg_event_queue ++ (a ∷ [])))
        × (s'.send.msg_event_queue ≡ [])
        × (s'.tasks ≡ rest)
        × (s'.pool.conns ≡ s.pool.conns)
  unfolding runs push_msg
  task_answered i m rest s {a} free taken done h =
      let queue = s.send.msg_event_queue ++ (a ∷ []) in
      let s₁ = push_answer rest s a in
      let (s', ran, v) =
        sends_all 0 queue (begun s₁) (no_sending (take_signal (send_state s₁))) refl refl h in
      (
        s',
        ap (and_on (runs ctl_ok (begin_pass ∷ one_pass scripts 0 queue)))
              (ran_task i m rest s free taken done)
            ∙ ap (and_on (runs ctl_ok (one_pass scripts 0 queue)))
                (begins ctl_ok s₁ free (lt→ltb 0 _ (omega arith)) (lt→ltb 0 _ (omega arith)))
            ∙ ran,
        v.sent,
        v.queue,
        v.tasks,
        v.conns,
      )
