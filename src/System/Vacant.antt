-- ===== src/System/Vacant.antt =====
-- The free connections: each is free once, and has no channel.
use mathlib.Core.Path.{subst}
use native.Mathlib.Decide.{ℕ_discrete}
use tiny_network_repository.Prelude.{
  ℕ, ◌≡◌, ◌≢◌, refl, sym, ◌∙◌, ap, arith, ◌⊎◌, inl, inr, true, false, List, [], ◌∷◌, ◌++◌, Option,
  none, some, ◌==◌, All, All-append, All_mono,
}
use tiny_network_repository.TcpConnection.{TcpConnection}
use tiny_network_repository.TcpConnection.Output.{has_channel}
use tiny_network_repository.TcpConnectionPool.{update}
use tiny_network_repository.RecyThread.Recycle.{AllNe}
use tiny_network_repository.TcpServer.Accept.{AllDistinct}
use tiny_network_repository.System.{System, Sweeping}
use tiny_network_repository.System.Known.{at_update}

-- The connections that wait to be closed: the queue, or what a sweep has of it.
abbrev pub to_close : Option Sweeping → List ℕ → List ℕ
to_close none queue = queue
to_close (some v) queue = v.left ++ v.sweep.kept

-- A connection that waits to be closed is not free, or has no pool.
abbrev pub IsClosable : (ℕ → TcpConnection) → List ℕ → ℕ → Type 0
IsClosable conns free j = AllNe j free ⊎ ((conns j).conn_pool ≡ none)

pub record IsVacant (conns : ℕ → TcpConnection) (free queue : List ℕ) : Type 0 where
  pub closed : All (λ i. has_channel (conns i) ≡ false) free
  pub once : AllDistinct free
  pub waiting : All (IsClosable conns free) queue

abbrev pub IsTidy : System → Type 0
IsTidy s = IsVacant s.pool.conns s.pool.free_connection_list (to_close s.sweep s.recy.event_queue)

-- The same channel or none, and the same pool.
pub record IsAlike (c c' : TcpConnection) : Type 0 where
  pub channel : has_channel c' ≡ has_channel c
  pub pool : c'.conn_pool ≡ c.conn_pool

pub IsVacant-IsAlike :
    {conns conns' : ℕ → TcpConnection} {free queue : List ℕ}
    → ((i : ℕ) → IsAlike (conns i) (conns' i))
    → IsVacant conns free queue
    → IsVacant conns' free queue
IsVacant-IsAlike {free = free} {queue = queue} alike v = record {
  closed = All_mono free (λ i e. (alike i).channel ∙ e) v.closed;
  once = v.once;
  waiting =
      All_mono queue
        (λ j c. elim c [ inl ne ↦ inl ne | inr homeless ↦ inr ((alike j).pool ∙ homeless) ])
        v.waiting;
}

pub IsVacant-update :
    {conns : ℕ → TcpConnection} {free queue : List ℕ} (i : ℕ) (c : TcpConnection)
    → IsAlike (conns i) c
    → IsVacant conns free queue
    → IsVacant (update conns i c) free queue
IsVacant-update {conns} i c alike = IsVacant-IsAlike (
    at_update (λ j c'. IsAlike (conns j) c') conns i c alike
      (λ j. record { channel = refl; pool = refl }))

-- A connection with a channel is not free.
pub open-AllNe :
    (conns : ℕ → TcpConnection) (i : ℕ) (free : List ℕ)
    → has_channel (conns i) ≡ true
    → All (λ j. has_channel (conns j) ≡ false) free
    → AllNe i free
open-AllNe conns i [] here h = tt
open-AllNe conns i (j ∷ free) here (e, h) = (
  (λ same. let no : true ≡ false = sym here ∙ ap (λ k. has_channel (conns k)) same ∙ e in cc),
  open-AllNe conns i free here h,
)

update-other :
    (conns : ℕ → TcpConnection) (i : ℕ) (c : TcpConnection) (j : ℕ)
    → i ≢ j
    → update conns i c j ≡ conns j
update-other conns i c j ne = let test : (i == j) ≡ false = ground arith in rw test refl

update_self : (conns : ℕ → TcpConnection) (i : ℕ) (c : TcpConnection) → update conns i c i ≡ c
update_self conns i c = let test : (i == i) ≡ true = ground arith in rw test refl

-- What holds of the connections of a list holds after a change of one that is not in it.
All-update :
    (P : TcpConnection → Type 0) (conns : ℕ → TcpConnection) (i : ℕ) (c : TcpConnection)
    (js : List ℕ)
    → AllNe i js
    → All (λ j. P (conns j)) js
    → All (λ j. P (update conns i c j)) js
All-update P conns i c [] ne h = tt
All-update P conns i c (j ∷ js) (ne, nes) (h, hs) =
    (subst P (sym (update-other conns i c j ne)) h, All-update P conns i c js nes hs)

-- The first free connection is taken.
pub IsVacant-taken :
    {conns : ℕ → TcpConnection} {free queue : List ℕ} (i : ℕ) (c : TcpConnection)
    → IsVacant conns (i ∷ free) queue
    → IsVacant (update conns i c) free queue
IsVacant-taken {conns} {free} {queue} i c v = record {
  closed = All-update (λ d. has_channel d ≡ false) conns i c free v.once.0 v.closed.1;
  once = v.once.1;
  waiting =
      All_mono queue
        (λ j closable. elim (ℕ_discrete i j) [
          | yes same ↦ inl (subst (λ k. AllNe k free) same v.once.0)
          | no other ↦ elim closable [
            | inl ne ↦ inl ne.1
            | inr homeless ↦ inr (ap (λ d. d.conn_pool) (update-other conns i c j other) ∙ homeless)
          ]
        ])
        v.waiting;
}

AllNe-append : (j i : ℕ) (free : List ℕ) → j ≢ i → AllNe j free → AllNe j (free ++ (i ∷ []))
AllNe-append j i [] ne h = (ne, tt)
AllNe-append j i (k ∷ free) ne (h, hs) = (h, AllNe-append j i free ne hs)

AllDistinct-append :
    (i : ℕ) (free : List ℕ) → AllNe i free → AllDistinct free → AllDistinct (free ++ (i ∷ []))
AllDistinct-append i [] ne h = (tt, tt)
AllDistinct-append i (k ∷ free) (ne, nes) (h, hs) =
    (AllNe-append k i free (λ e. ne (sym e)) h, AllDistinct-append i free nes hs)

-- A connection that is not free is closed, and is free then.
pub IsVacant-closed :
    {conns : ℕ → TcpConnection} {free queue : List ℕ} (i : ℕ) (c : TcpConnection)
    → AllNe i free
    → has_channel c ≡ false
    → c.conn_pool ≡ none
    → IsVacant conns free queue
    → IsVacant (update conns i c) (free ++ (i ∷ [])) queue
IsVacant-closed {conns} {free} {queue} i c ne shut homeless v = record {
  closed =
      All-append (λ j. has_channel (update conns i c j) ≡ false) free (i ∷ [])
        (All-update (λ d. has_channel d ≡ false) conns i c free ne v.closed)
        ((ap has_channel (update_self conns i c) ∙ shut), tt);
  once = AllDistinct-append i free ne v.once;
  waiting =
      All_mono queue
        (λ j closable. elim (ℕ_discrete i j) [
          | yes same ↦ inr (
              subst (λ k. (update conns i c k).conn_pool ≡ none) same
                (ap (λ d. d.conn_pool) (update_self conns i c) ∙ homeless))
          | no other ↦ elim closable [
            | inl apart ↦ inl (AllNe-append j i free (λ e. other (sym e)) apart)
            | inr gone ↦ inr (ap (λ d. d.conn_pool) (update-other conns i c j other) ∙ gone)
          ]
        ])
        v.waiting;
}
