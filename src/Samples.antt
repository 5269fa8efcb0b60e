-- ===== src/Samples.antt =====
-- Small values for the tests: a buffer that holds given bytes, a connection, a poller, a channel.
use tiny_network_repository.Prelude.{
  ℕ, ◌-◌, ◌≤◌, refl, arith, true, false, List, [], ◌++◌, none, some, map, length, replicate,
  length-append, length-map, length-replicate, inr,
}
use tiny_network_repository.Prelude.Int.{pos, negsuc}
use tiny_network_repository.Buffer.{Buffer, Cell, fresh}
use tiny_network_repository.Buffer.Valid.{IsValid}
use tiny_network_repository.Poller.{Channel, Poller}
use tiny_network_repository.TcpConnection.{TcpConnection}

-- The bytes at the front of a block of 512.
abbrev pub holding : List ℕ → Buffer
holding xs = record {
  buf = map some xs ++ replicate (512 - length xs) none;
  begin = 0;
  end = length xs;
  capacity = 512;
  exp = 512;
}

pub holding-IsValid : (xs : List ℕ) → length xs ≤ 512 → IsValid (holding xs)
holding-IsValid xs h = record {
  begin_le = omega arith;
  end_le = h;
  block = omega (
    arith,
    length-append (map {B = Cell} some xs) (replicate (512 - length xs) none),
    length-map {A = ℕ} {B = Cell} some xs,
    length-replicate {A = Cell} (512 - length xs) none,
  );
  small = omega arith;
  exp_eq = refl;
  roomy = inr (omega arith);
}

-- A poller that waits, and a channel that reads.
abbrev pub idle_poller : Poller
idle_poller = record { last_active = negsuc 0; live_channels = []; active_evs = []; requests = [] }

abbrev pub reading_channel : Channel
reading_channel = record { id = 1; fd = pos 5; events = 1 }

-- The connection of pool 1 that has the receive buffer `b`, and its channel at address 40.
abbrev pub connection : Buffer → TcpConnection
connection b = record {
  base = some 2;
  fd = pos 5;
  channel = some (40, reading_channel);
  cur_sequence = 3;
  use_send_event = false;
  local = 0;
  peer = 0;
  read_task = true;
  recv_buffer = b;
  write_buffer = fresh;
  conn_pool = some 1;
  in_recy_time_point = 0;
}
