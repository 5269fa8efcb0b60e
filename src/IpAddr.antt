-- ===== src/IpAddr.antt =====
-- include/tiny_ipaddr.h and net/tiny_ipaddr.cxx: an IPv4 address with a port. Strings are lists of
-- bytes; the name service, the byte order of the network and the printing of an address are the
-- system's, and arguments here. The text that is printed is left out.
pub mod Named
mod Tests
use tiny_network_repository.Prelude.{
  text_codes, ℕ, ◌-◌, ◌^◌, Bool, true, false, not, List, [], ◌∷◌, ◌++◌, Option, none, some,
  if◌then◌else◌, ◌==◌,
}

-- `sin_family` is always AF_INET.
pub record Ip4Addr : Type 0 where
  pub sin_port : ℕ
  pub sin_addr : ℕ

pub record HostEntry : Type 0 where
  pub is_inet : Bool
  pub h_addr : ℕ

-- The arguments: gethostbyname_r, with its return value and its entry, htons, ntohs, inet_ntoa and
-- std::to_string.
pub record System : Type 0 where
  pub get_host : List ℕ → ℕ × Option HostEntry
  pub htons : ℕ → ℕ
  pub ntohs : ℕ → ℕ
  pub inet_ntoa : ℕ → List ℕ
  pub decimal : ℕ → List ℕ

abbrev pub inaddr_none : ℕ
inaddr_none = 2 ^ 32 - 1

abbrev pub inaddr_any : ℕ
inaddr_any = 0

abbrev pub resolved : ℕ × Option HostEntry → ℕ
resolved (r, none) = inaddr_none
resolved (r, some he) =
    if r == 0 then (if he.is_inet then he.h_addr else inaddr_none) else inaddr_none

unfoldable pub get_host_by_name : System → List ℕ → ℕ
get_host_by_name sys host = resolved (sys.get_host host)

abbrev pub is_empty_host : List ℕ → Bool
is_empty_host [] = true
is_empty_host (c ∷ rest) = false

-- Ip4Addr(host, port)
unfoldable pub from_host : System → List ℕ → ℕ → Ip4Addr
unfolding get_host_by_name
from_host sys host port = record {
  sin_port = sys.htons port;
  sin_addr = if is_empty_host host then inaddr_any else get_host_by_name sys host;
}

-- Ip4Addr(port)
unfoldable pub from_port : System → ℕ → Ip4Addr
unfolding from_host
from_port sys port = from_host sys [] port

unfoldable pub ip : System → Ip4Addr → List ℕ
ip sys a = sys.inet_ntoa a.sin_addr

unfoldable pub port : System → Ip4Addr → ℕ
port sys a = sys.ntohs a.sin_port

unfoldable pub to_string : System → Ip4Addr → List ℕ
to_string sys a = sys.inet_ntoa a.sin_addr ++ (text_codes ":" ++ sys.decimal (sys.ntohs a.sin_port))

unfoldable pub is_ip_valid : Ip4Addr → Bool
is_ip_valid a = not (a.sin_addr == inaddr_none)

-- hostToIp
unfoldable pub host_to_ip : System → List ℕ → List ℕ
unfolding from_host ip
host_to_ip sys host = ip sys (from_host sys host 0)
