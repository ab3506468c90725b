-- ===== src/Net/Coded.antt =====
-- A text of addresses to try theorems on: none that a person would write, but it reads back.
use dandelion.Prelude.{ℕ, zero, suc, [], ◌∷◌, Option, none, some, ◌≡◌, refl}
use dandelion.Net.{Text, IpAddr, v4, v6, SocketAddr, AddrText, ReadsBack}

abbrev ip_code : IpAddr → Text
ip_code (v4 o) = 0 ∷ o
ip_code (v6 o) = 1 ∷ o

abbrev read_ip : Text → Option IpAddr
read_ip [] = none
read_ip (zero ∷ o) = some (v4 o)
read_ip (suc n ∷ o) = some (v6 o)

abbrev with_ip : ℕ → ℕ → Option IpAddr → Option SocketAddr
with_ip s p none = none
with_ip s p (some a) = some (record { ip = a; port = p; scope_id = s })

abbrev read_addr : Text → Option SocketAddr
read_addr (zero ∷ s ∷ p ∷ o) = with_ip s p (read_ip o)
read_addr _ = none

abbrev pub coded : AddrText
coded = record {
  parse_ip = read_ip;
  ip_to_string = ip_code;
  parse_addr = read_addr;
  addr_to_string = λ a. 0 ∷ a.scope_id ∷ a.port ∷ ip_code a.ip;
}

read_ip-code : (a : IpAddr) → read_ip (ip_code a) ≡ some a
read_ip-code (v4 o) = refl
read_ip-code (v6 o) = refl

pub coded-ReadsBack : ReadsBack coded
coded-ReadsBack = record {
  parse_ip-to_string = read_ip-code;
  parse_addr-to_string = λ a. rw (read_ip-code a.ip) refl;
}
