-- ===== src/IpAddr/Tests.antt =====
-- A system of little-endian byte order, whose name service knows one name.
use tiny_network_repository.Prelude.{text_codes, ℕ, ◌+◌, ◌*◌, ◌/◌, ◌%◌, true, some}
use tiny_network_repository.IpAddr.{System}

abbrev swapped : ℕ → ℕ
swapped n = n % 256 * 256 + n / 256

abbrev system : System
system = record {
  get_host = λ host. (0, some (record { is_inet = true; h_addr = 16777343 }));
  htons = swapped;
  ntohs = swapped;
  inet_ntoa = λ a. text_codes "127.0.0.1";
  decimal = λ n. text_codes "6543";
}
