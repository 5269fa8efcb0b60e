-- ===== src/System/Handover.antt =====
-- No connection is given to a second descriptor while it has a first one.
use mathlib.Core.Path.{subst}
use tiny_network_repository.Prelude.{
  ℕ, zero, suc, ◌+◌, ◌≡◌, refl, sym, inl, Bool, true, false, List, [], ◌∷◌, ◌++◌, Option, none,
  some, ltb, if_lem, All, All-append, All_right, All_mono,
}
use tiny_network_repository.Prelude.Outcome.{ok, WhenDone}
use tiny_network_repository.Poller.{CtlCall, Poller}
use tiny_network_repository.TcpConnection.{TcpConnection, make}
use tiny_network_repository.TcpConnection.Output.{has_channel}
use tiny_network_repository.TcpConnectionPool.{create, addresses}
use tiny_network_repository.RecyThread
use tiny_network_repository.RecyThread.Recycle.{AllNe}
use tiny_network_repository.TcpServer.Accept.{AllDistinct}
use tiny_network_repository.TcpServer.Init.{AllDistinct-addresses}
use tiny_network_repository.App.{Reading}
use tiny_network_repository.System.{System, Sweeping, start}
use tiny_network_repository.System.Loop.{after_read}
use tiny_network_repository.System.Passes.{pick}
use tiny_network_repository.System.Sweeps.{
  beginning_sweep, sweeping_next, end_sweep_from, ending_sweep,
}
use tiny_network_repository.System.Run.{
  Action, accept, read, write, run_task, begin_pass, send_next, end_pass, begin_sweep, sweep_next,
  end_sweep, act, runs,
}
use tiny_network_repository.System.Reader.{Serves}
use tiny_network_repository.System.Right.Loop.{reading-WhenDone}
use tiny_network_repository.System.Delivery.{and_on-WhenDone}
use tiny_network_repository.System.Vacant.{
  to_close, IsClosable, IsVacant, IsTidy, IsVacant-update, open-AllNe,
}
use tiny_network_repository.System.Tidy.{handle_accept-IsVacant, sweep_from-IsTidy}
use tiny_network_repository.System.Tidy.Sending.{
  sending_next-IsTidy, beginning_pass-IsTidy, ending_pass-IsTidy, running-IsTidy, writing-IsTidy,
}

beginning_sweep-IsTidy :
    (s : System) (o : Option Sweeping)
    → s.sweep ≡ o
    → IsTidy s
    → WhenDone IsTidy (beginning_sweep o s)
beginning_sweep-IsTidy s (some v) at t = tt
beginning_sweep-IsTidy s none at t =
    let queue = s.recy.event_queue in
    let P = IsClosable s.pool.conns s.pool.free_connection_list in
    let waiting : All P queue = subst (λ o. All P (to_close o queue)) at t.waiting in
    if_lem (WhenDone IsTidy) (ltb 0 s.recy.sem_event_queue)
      (λ e.
        if_lem (WhenDone IsTidy) (ltb 0 s.recy.event_queue_size)
          (λ f. record {
            closed = t.closed;
            once = t.once;
            waiting = All-append P queue [] waiting tt;
          })
          (λ f. tt))
      (λ e. tt)

sweeping_next-IsTidy :
    (now : ℕ) (s : System) (o : Option Sweeping)
    → s.sweep ≡ o
    → IsTidy s
    → WhenDone IsTidy (sweeping_next now o s)
sweeping_next-IsTidy now s none at t = tt
sweeping_next-IsTidy now s (some v) at t = sweep_from-IsTidy now s v v.left at refl t

end_sweep_from-IsTidy :
    (s : System) (v : Sweeping) (left : List ℕ)
    → s.sweep ≡ some v
    → IsTidy s
    → WhenDone IsTidy (end_sweep_from left v s)
end_sweep_from-IsTidy s v (i ∷ rest) at t = tt
end_sweep_from-IsTidy s v [] at t =
    let P = IsClosable s.pool.conns s.pool.free_connection_list in
    record {
      closed = t.closed;
      once = t.once;
      waiting =
          All_right P v.left v.sweep.kept
            (subst (λ o. All P (to_close o s.recy.event_queue)) at t.waiting);
    }

ending_sweep-IsTidy :
    (s : System) (o : Option Sweeping) → s.sweep ≡ o → IsTidy s → WhenDone IsTidy (ending_sweep o s)
ending_sweep-IsTidy s none at t = tt
ending_sweep-IsTidy s (some v) at t = end_sweep_from-IsTidy s v v.left at t

-- A connection with a channel may put itself into the queue of the recycling thread.
after_read-IsTidy :
    (i n : ℕ) (s : System) (r : Reading) (o : Option Sweeping)
    → s.sweep ≡ o
    → has_channel (s.pool.conns i) ≡ true
    → Serves i (s.pool.conns i) s.recy r
    → IsTidy s
    → IsTidy (after_read i n s r)
after_read-IsTidy i n s r o at here v t =
    let V : List ℕ → Type 0 = IsVacant s.pool.conns s.pool.free_connection_list in
    let (xs, e, all) = v.stays.queue in
    IsVacant-update i r.conn (record { channel = v.stays.same.channel; pool = v.stays.same.pool })
      (subst (λ o'. V (to_close o' r.recy.event_queue)) (sym at)
        (longer o xs e all (subst (λ o'. V (to_close o' s.recy.event_queue)) at t)))
  where
    closable :
        (xs : List ℕ)
        → All (λ x. x ≡ i) xs
        → AllNe i s.pool.free_connection_list
        → All (IsClosable s.pool.conns s.pool.free_connection_list) xs
    closable xs all ne =
        All_mono xs (λ x same. inl (subst (λ k. AllNe k s.pool.free_connection_list) (sym same) ne))
          all

    longer :
        (o : Option Sweeping) (xs : List ℕ)
        → r.recy.event_queue ≡ s.recy.event_queue ++ xs
        → All (λ x. x ≡ i) xs
        → IsVacant s.pool.conns s.pool.free_connection_list (to_close o s.recy.event_queue)
        → IsVacant s.pool.conns s.pool.free_connection_list (to_close o r.recy.event_queue)
    longer (some w) xs e all u = u
    longer none xs e all u =
        let free = s.pool.free_connection_list in
        let P = IsClosable s.pool.conns free in
        record {
          closed = u.closed;
          once = u.once;
          waiting = subst (All P) (sym e) (
              All-append P s.recy.event_queue xs u.waiting
                (closable xs all (open-AllNe s.pool.conns i free here u.closed)));
        }

act-IsTidy :
    (ctl_ok : CtlCall → Bool) (a : Action) (s : System)
    → IsTidy s
    → WhenDone IsTidy (act ctl_ok a s)
unfolding act
act-IsTidy ctl_ok (accept script) s t =
    handle_accept-IsVacant ctl_ok (to_close s.sweep s.recy.event_queue) script
      (record { pool = s.pool; poller = s.poller; closed = [] }) t
act-IsTidy ctl_ok (read now conn fuel reads) s t =
    reading-WhenDone IsTidy now conn fuel reads s
      (λ n r e v le. after_read-IsTidy conn n s r s.sweep refl e v t)
act-IsTidy ctl_ok (write conn script) s t = writing-IsTidy conn script s t
act-IsTidy ctl_ok (run_task k) s t = running-IsTidy s s.pass (pick k s.tasks) t
act-IsTidy ctl_ok begin_pass s t = beginning_pass-IsTidy s s.pass t
act-IsTidy ctl_ok (send_next script) s t = sending_next-IsTidy script s s.pass t
act-IsTidy ctl_ok end_pass s t = ending_pass-IsTidy s s.pass t
act-IsTidy ctl_ok begin_sweep s t = beginning_sweep-IsTidy s s.sweep refl t
act-IsTidy ctl_ok (sweep_next now) s t = sweeping_next-IsTidy now s s.sweep refl t
act-IsTidy ctl_ok end_sweep s t = ending_sweep-IsTidy s s.sweep refl t

runs-IsTidy :
    (ctl_ok : CtlCall → Bool) (actions : List Action) (s : System)
    → IsTidy s
    → WhenDone IsTidy (runs ctl_ok actions s)
unfolding runs
runs-IsTidy ctl_ok [] s t = t
runs-IsTidy ctl_ok (a ∷ rest) s t =
    and_on-WhenDone ctl_ok IsTidy IsTidy (runs ctl_ok rest) (act ctl_ok a s)
      (act-IsTidy ctl_ok a s t) (λ s' t'. runs-IsTidy ctl_ok rest s' t')

All-addresses : (P : ℕ → Type 0) (i n : ℕ) → ((j : ℕ) → P j) → All P (addresses i n)
All-addresses P i zero h = tt
All-addresses P i (suc n) h = (h i, All-addresses P (i + 1) n h)

start-IsTidy : (memory : ℕ → TcpConnection) (size : ℕ) (p : Poller) → IsTidy (start memory size p)
unfolding start create make RecyThread.create_thread
start-IsTidy memory size p = record {
  closed = All-addresses _ 0 size (λ j. refl);
  once = AllDistinct-addresses 0 size;
  waiting = tt;
}

-- After any sequence of actions of the server, from its start, whatever order the threads run in,
-- and however often a connection was put into the queue of the recycling thread: the free
-- connections are different ones, and none of them has a channel.
pub free_connections :
    (ctl_ok : CtlCall → Bool) (memory : ℕ → TcpConnection) (size : ℕ) (p : Poller)
    (actions : List Action) {s : System}
    → runs ctl_ok actions (start memory size p) ≡ some (ok s)
    → AllDistinct s.pool.free_connection_list
      × All (λ i. has_channel (s.pool.conns i) ≡ false) s.pool.free_connection_list
free_connections ctl_ok memory size p actions ran =
    let tidy =
      subst (WhenDone IsTidy) ran
        (runs-IsTidy ctl_ok actions (start memory size p) (start-IsTidy memory size p)) in
    (tidy.once, tidy.closed)
