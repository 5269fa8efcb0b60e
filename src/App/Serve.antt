-- ===== src/App/Serve.antt =====
-- A connection that is readable: tcpHandleRead of net/tiny_tcpconnection.cxx calls the read callback
-- of app/tiny_server.cxx.
use tiny_network_repository.Prelude.{
  ℕ, [], Option, none, ◌<◌, ◌≡◌, ◌∙◌, ap, Bool, true, false, List, ◌++◌, map, some, length,
  if◌then◌else◌,
}
use tiny_network_repository.Prelude.Outcome.{Outcome, ok, ◌>>=◌}
use tiny_network_repository.Buffer.{contents}
use tiny_network_repository.Buffer.Valid.{IsValid}
use tiny_network_repository.Codec.{Msg}
use tiny_network_repository.TcpConnection.Input.{Reads, tcp_handle_read}
use tiny_network_repository.TcpConnection.Read.{
  Chunked, Affordable, stays, bytes, total, tcp_handle_read_drained,
}
use tiny_network_repository.App.{Reading, Ended, waiting, read_task}
use tiny_network_repository.App.Parts.{read_task_stream}
use tiny_network_repository.App.Frames.{Frame, AllFramed, stream, Delivered}

-- What the callback comes to, or none where it is not called.
unfoldable pub serve : ℕ → ℕ → Bool → ℕ → Reads → Reading → Outcome (Reading × Option Ended)
unfolding tcp_handle_read read_task
serve now self stopped fuel reads r = do
  (c, t, p, called) ← tcp_handle_read now self reads r.conn r.recy r.poller
  let r' = record r { conn = c; recy = t; poller = p }
  if called
      then (do (r'', ended) ← read_task now self stopped fuel r'; ok (r'', some ended))
      else ok (r', none)

-- From a socket that is drained in pieces of 512 bytes at most, with a valid receive buffer that can
-- grow by these and holds whole frames together with them, and with more rounds than frames: each
-- report goes to the thread pool, in order, and the buffer is empty afterwards.
pub frames_served :
    (now self : ℕ) (reads : Reads) (fs : List Frame) (fuel : ℕ) (r : Reading)
    → IsValid r.conn.recv_buffer
    → Chunked reads
    → Affordable r.conn.recv_buffer (total reads)
    → stays reads ≡ true
    → r.conn.read_task ≡ true
    → AllFramed fs
    → contents r.conn.recv_buffer ++ map some (bytes reads) ≡ stream fs
    → length fs < fuel
    → (r' : Reading) × (ms : List Msg) × (serve now self false fuel reads r ≡ ok (r', some waiting))
      × (r'.tasks ≡ r.tasks ++ ms)
      × Delivered r.conn.cur_sequence self fs ms
      × (contents r'.conn.recv_buffer ≡ [])
      × (r'.recy ≡ r.recy)
unfolding serve
frames_served now self reads fs fuel r v small afford there set w e enough =
    let (b, read, u, all) =
      tcp_handle_read_drained now self reads r.conn r.recy r.poller v small afford there in
    let r₁ : Reading = record r { conn = record r.conn { recv_buffer = b } } in
    let (r', ms, done, tasks, delivered, empty, same) =
      read_task_stream now self fs fuel r₁ u w (all ∙ e) enough in
    (
      r',
      ms,
      rw (read, done)
          (ap (λ (called : Bool). if called then ok (r', some waiting) else ok (r₁, none)) set),
      tasks,
      delivered,
      empty,
      same,
    )
