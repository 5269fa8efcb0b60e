-- ===== src/TcpConnection/Tests.antt =====
-- Runs of a connection, and the theorems at a concrete connection.
use tiny_network_repository.Prelude.{◌≡◌, refl, arith, Bool, true, List, [], ◌∷◌, ◌++◌, some, map}
use tiny_network_repository.Prelude.Outcome.{ok, err, out_of_bounds}
use tiny_network_repository.Buffer.{Buffer, Cell, fresh, size, contents}
use tiny_network_repository.Buffer.Valid.{IsValid, fresh-IsValid}
use tiny_network_repository.Poller.{CtlCall}
use tiny_network_repository.TcpConnection.{TcpConnection, eagain}
use tiny_network_repository.TcpConnection.Input.{
  Reads, got, interrupted, would_block, eof, read_loop,
}
use tiny_network_repository.TcpConnection.Output.{wrote, failed, send}
use tiny_network_repository.TcpConnection.Read.{read_loop_lem}
use tiny_network_repository.TcpConnection.Send.{send_complete, send_failed}
use tiny_network_repository.Samples.{holding, holding-IsValid, connection, idle_poller}

-- Two pieces, a signal between them, and then no more.
abbrev two_pieces : Reads
two_pieces = got 1 (2 ∷ []) (interrupted (got 3 [] would_block))

abbrev one_and_gone : Reads
one_and_gone = got 1 [] eof

abbrev conn : TcpConnection
conn = connection fresh

abbrev three : List Cell
three = some 7 ∷ some 8 ∷ some 9 ∷ []

abbrev three_in : Buffer
three_in = holding (7 ∷ 8 ∷ 9 ∷ [])

three_in-IsValid : IsValid three_in
three_in-IsValid = holding-IsValid (7 ∷ 8 ∷ 9 ∷ []) (omega arith)

read_loop_lem_example :
    (b' : Buffer) × (read_loop two_pieces fresh ≡ ok (b', true))
    × IsValid b'
    × (contents b' ≡ contents fresh ++ map some (1 ∷ 2 ∷ 3 ∷ []))
unfolding fresh
read_loop_lem_example =
    read_loop_lem two_pieces {b = fresh} fresh-IsValid (omega arith, (omega arith, tt))
      (omega arith, omega arith)

send_failed_example : send (failed eagain ∷ []) three_in conn idle_poller ≡ some (err out_of_bounds)
unfolding size fresh
send_failed_example =
    send_failed three_in conn idle_poller eagain [] three_in-IsValid fresh-IsValid refl
      (omega arith) refl refl (omega arith) (omega arith)

three_sent :
    (b' : Buffer) × (send (wrote 3 ∷ []) three_in conn idle_poller
      ≡ some (
          ok (record {
            result = 0;
            buffer = b';
            conn = conn;
            poller = idle_poller;
            wire = contents three_in;
          })))
    × (contents b' ≡ [])
unfolding size
three_sent =
    send_complete three_in conn idle_poller (wrote 3 ∷ []) three_in-IsValid refl refl (omega arith)
      (omega arith, refl)

accepts : CtlCall → Bool
accepts call = true
