-- ===== src/Client/Tests.antt =====
-- A turn of the client, and the answer of the server as the client prints it.
use tiny_network_repository.Buffer.Valid.{fresh-IsValid}
use tiny_network_repository.Buffer.{Cell}
use tiny_network_repository.RecyThread.{create_thread}
use tiny_network_repository.App.{Reading, waiting}
use tiny_network_repository.App.Frames.{IsFramed, stream, Delivered}
use tiny_network_repository.App.Parts.{read_on}
use tiny_network_repository.App.Events.{Arrivals, over, event, serve_all}
use tiny_network_repository.TcpConnection.Input.{Reads, got, would_block}
use tiny_network_repository.Client.{session}
use tiny_network_repository.Client.Conversation.{
  asked_frame, times, AllAnswered, confirmation, conversation,
}
use tiny_network_repository.Samples.{connection, idle_poller}
use tiny_network_repository.Prelude.{
  ◌≡◌, refl, arith, false, List, length, replicate, inl, [], ◌∷◌, ◌++◌, map, some,
}
use tiny_network_repository.Prelude.Outcome.{ok, err, out_of_bounds}
use tiny_network_repository.Buffer.{Buffer, contents, size, fresh}
use tiny_network_repository.Codec.{Msg, Rpt, encode}
use tiny_network_repository.Client.{request, received, print_report, greeting}
use tiny_network_repository.Client.Print.{print_report-encode}
use tiny_network_repository.Samples.{holding, holding-IsValid}

-- The request is a frame of 14 bytes, of type 0.
asks : request ≡ 0x3f ∷ 13 ∷ 0 ∷ 0 ∷ 0 ∷ 0 ∷ 0 ∷ 0 ∷ 0 ∷ greeting
asks = refl

abbrev report : Rpt
report = record {
  rpt_head = record { rpt_len = 11; type = 1 };
  rpt_buffer = holding (111 ∷ 107 ∷ 33 ∷ []);
}

print_report-encode_example :
    (b : Buffer) × (encode report ≡ ok b)
    × (print_report (received (contents b ++ (some 9 ∷ []))) ≡ ok (111 ∷ 107 ∷ 33 ∷ []))
print_report-encode_example =
    print_report-encode report (111 ∷ 107 ∷ 33 ∷ []) (some 9 ∷ [])
      (holding-IsValid (111 ∷ 107 ∷ 33 ∷ []) (omega arith)) (unfold contents size in refl) refl
      (omega arith) (omega arith, (omega arith, (omega arith, tt)))

-- A length field of 109 has the client copy 101 bytes into a block of 100.
prints_too_much : print_report (received (map some (0x3f ∷ 109 ∷ 0 ∷ []))) ≡ err out_of_bounds
unfolding print_report
prints_too_much = refl

-- A length field of 7 has it copy almost 2 ^ 64 bytes.
prints_too_little : print_report (received (map some (0x3f ∷ 7 ∷ 0 ∷ []))) ≡ err out_of_bounds
unfolding print_report
prints_too_little = refl

-- Two requests, of which the second comes in two pieces.
abbrev two_requests : List Reads
two_requests =
    got 0x3f (13 ∷ 0 ∷ 0 ∷ 0 ∷ 0 ∷ 0 ∷ 0 ∷ 0 ∷ greeting) would_block
    ∷ got 0x3f (13 ∷ 0 ∷ []) (got 0 (0 ∷ 0 ∷ 0 ∷ 0 ∷ 0 ∷ greeting) would_block)
    ∷ []

asked_frame-IsFramed : IsFramed asked_frame
asked_frame-IsFramed = record { counted = refl; len_small = omega arith; type_small = omega arith }

two-Arrivals : Arrivals 2 [] two_requests (replicate 2 asked_frame) []
two-Arrivals =
    event {middle = []} {fs = asked_frame ∷ []}
      (record {
        small = (omega arith, tt);
        there = refl;
        framed = (asked_frame-IsFramed, tt);
        few = omega arith;
        cut = inl refl;
        laid = refl;
      })
      (event {middle = []} {fs = asked_frame ∷ []}
        (record {
          small = (omega arith, (omega arith, tt));
          there = refl;
          framed = (asked_frame-IsFramed, tt);
          few = omega arith;
          cut = inl refl;
          laid = refl;
        })
        over)

abbrev connected : Reading
connected = record {
  conn = connection fresh;
  recy = create_thread;
  poller = idle_poller;
  tasks = [];
}

conversation_example :
    (b : Buffer) × (ms : List Msg) × (replies : List (List Cell)) × (map some (times 2 request)
      ≡ stream (replicate 2 asked_frame))
    × (serve_all 5 7 false 2 two_requests connected ≡ ok (read_on b ms connected, some waiting))
    × (length ms ≡ 2)
    × Delivered 3 7 (replicate 2 asked_frame) ms
    × AllAnswered ms replies
    × (session replies ≡ ok (times 2 request, times 2 confirmation))
unfolding fresh
conversation_example =
    conversation 2 5 7 2 connected two-Arrivals fresh-IsValid (omega arith, omega arith) refl
      (unfold contents size in refl)
