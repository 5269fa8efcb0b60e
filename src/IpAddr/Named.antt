-- ===== src/IpAddr/Named.antt =====
-- An address that was made from a name and a port.
use tiny_network_repository.Prelude.{
  text_codes, ℕ, ◌≡◌, refl, Bool, true, false, not, List, [], ◌∷◌, ◌++◌, Option, none, some, ◌==◌,
  ◌&&◌, inl, inr, Bool-cases,
}
use tiny_network_repository.IpAddr.{
  HostEntry, System, inaddr_none, resolved, from_host, port, ip, to_string, is_ip_valid, host_to_ip,
  get_host_by_name,
}

-- The name service succeeded, with an address of the right kind other than the one that stands for
-- none.
abbrev pub is_usable : ℕ × Option HostEntry → Bool
is_usable (r, none) = false
is_usable (r, some he) = r == 0 && (he.is_inet && not (he.h_addr == inaddr_none))

-- The empty name needs no service.
abbrev pub is_known : System → List ℕ → Bool
is_known sys [] = true
is_known sys (c ∷ rest) = is_usable (sys.get_host (c ∷ rest))

resolved_usable :
    (found : ℕ × Option HostEntry) → not (resolved found == inaddr_none) ≡ is_usable found
resolved_usable (r, none) = refl
resolved_usable (r, some he) = elim (Bool-cases (r == 0)) [
  | inr e ↦ rw e refl
  | inl e ↦ rw e (elim (Bool-cases he.is_inet) [ inl f ↦ rw f refl | inr f ↦ rw f refl ])
]

-- An address that was made from a host and a port, where ntohs gives back what htons took: its port
-- is that port, its text is the address of the host, a colon and the port, and it is valid exactly
-- if the host is empty, or the name service succeeds with an IPv4 address other than INADDR_NONE.
pub from_host_lem :
    (sys : System) (host : List ℕ) (p : ℕ)
    → sys.ntohs (sys.htons p) ≡ p
    → let a = from_host sys host p in
      (port sys a ≡ p)
      × (to_string sys a ≡ host_to_ip sys host ++ (text_codes ":" ++ sys.decimal p))
      × (is_ip_valid a ≡ is_known sys host)
unfolding from_host port to_string host_to_ip is_ip_valid get_host_by_name ip
from_host_lem sys [] p e = (e, rw e refl, refl)
from_host_lem sys (c ∷ rest) p e = (e, rw e refl, resolved_usable (sys.get_host (c ∷ rest)))
