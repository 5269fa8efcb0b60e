-- ===== src/App/Tests.antt =====
-- Runs of the read callback, and the theorems at concrete buffers.
use tiny_network_repository.Prelude.{
  ℕ, ◌≡◌, ◌≢◌, refl, arith, false, List, [], ◌∷◌, ◌++◌, some, inl, inr,
}
use tiny_network_repository.Prelude.Outcome.{ok}
use tiny_network_repository.Buffer.{Buffer, Cell, fresh, size, contents}
use tiny_network_repository.Buffer.Valid.{IsValid, fresh-IsValid}
use tiny_network_repository.Codec.{Msg, decode, read_byte}
use tiny_network_repository.TcpConnection.{recycle}
use tiny_network_repository.TcpConnection.Input.{get_recv_buffer_addr, get_recv_buffer_size}
use tiny_network_repository.RecyThread.{create_thread}
use tiny_network_repository.App.{Reading, waiting, recycled, starved, read_task}
use tiny_network_repository.Codec.{header}
use tiny_network_repository.App.Ends.{read_task_ends}
use tiny_network_repository.App.Parts.{read_on}
use tiny_network_repository.App.Frames.{Frame, AllFramed, Delivered}
use tiny_network_repository.App.Events.{Arrivals, over, event, serve_all, serve_all_lem}
use tiny_network_repository.TcpConnection.Input.{Reads, got, interrupted, would_block}
use tiny_network_repository.Samples.{holding, holding-IsValid, connection, idle_poller}

abbrev two_frames : List Frame
two_frames =
    record { head = record { rpt_len = 10; type = 1 }; body = some 65 ∷ some 66 ∷ [] }
    ∷ record { head = record { rpt_len = 8; type = 2 }; body = [] }
    ∷ []

-- The server with these bytes in the receive buffer of connection 7.
abbrev arrived : Buffer → Reading
arrived b = record { conn = connection b; recy = create_thread; poller = idle_poller; tasks = [] }

abbrev two_in_bytes : List ℕ
two_in_bytes =
    63 ∷ 10 ∷ 0 ∷ 1 ∷ 0 ∷ 0 ∷ 0 ∷ 0 ∷ 0 ∷ 65 ∷ 66 ∷ 63 ∷ 8 ∷ 0 ∷ 2 ∷ 0 ∷ 0 ∷ 0 ∷ 0 ∷ 0 ∷ []

abbrev two_in : Buffer
two_in = holding two_in_bytes

two_in-IsValid : IsValid two_in
two_in-IsValid = holding-IsValid two_in_bytes (omega arith)

two_frames-AllFramed : AllFramed two_frames
two_frames-AllFramed = (
  record { counted = refl; len_small = omega arith; type_small = omega arith },
  (record { counted = refl; len_small = omega arith; type_small = omega arith }, tt),
)

abbrev odd_in : Buffer
odd_in = holding (64 ∷ [])

odd_read : (r : Reading) × (read_task 0 7 false 2 (arrived odd_in) ≡ ok (r, recycled))
unfolding read_task decode get_recv_buffer_size read_byte get_recv_buffer_addr recycle
odd_read = (_, refl)

read_task_ends_example : recycled ≢ starved
read_task_ends_example =
    read_task_ends 0 7 false 2 (arrived odd_in) (holding-IsValid (64 ∷ []) (omega arith))
      (unfold size in omega arith) odd_read.1

-- The bytes of the two frames come with two events, of which the first ends inside the first frame.
abbrev first_reads : Reads
first_reads = got 63 (10 ∷ 0 ∷ 1 ∷ 0 ∷ 0 ∷ 0 ∷ 0 ∷ []) (interrupted (got 0 (65 ∷ []) would_block))

abbrev second_reads : Reads
second_reads = got 66 (63 ∷ 8 ∷ 0 ∷ 2 ∷ 0 ∷ 0 ∷ 0 ∷ 0 ∷ 0 ∷ []) would_block

abbrev first_part : List Cell
first_part = header (record { rpt_len = 10; type = 1 }) ++ (some 65 ∷ [])

two_events : Arrivals 3 [] (first_reads ∷ second_reads ∷ []) two_frames []
two_events =
    event {middle = first_part} {fs = []}
      (record {
        small = (omega arith, (omega arith, tt));
        there = refl;
        framed = tt;
        few = omega arith;
        cut = inr (record {
          head = record { rpt_len = 10; type = 1 };
          body = some 65 ∷ [];
          laid = refl;
          short = omega arith;
          len_small = omega arith;
          type_small = omega arith;
        });
        laid = refl;
      })
      (event {middle = []} {fs = two_frames}
        (record {
          small = (omega arith, tt);
          there = refl;
          framed = two_frames-AllFramed;
          few = omega arith;
          cut = inl refl;
          laid = refl;
        })
        over)

serve_all_lem_example :
    (b : Buffer) × (ms : List Msg) × (serve_all 5 7 false 3
        (first_reads ∷ second_reads ∷ [])
        (arrived fresh)
      ≡ ok (read_on b ms (arrived fresh), some waiting))
    × Delivered 3 7 two_frames ms
    × IsValid b
    × (contents b ≡ [])
unfolding fresh
serve_all_lem_example =
    serve_all_lem 5 7 3 (arrived fresh) two_events fresh-IsValid (omega arith, omega arith) refl
      (unfold contents size in refl)
