-- ===== src/Endpoint.antt =====
-- core/src/core/endpoint.rs: the target of a connection, its text and the reading of that text.
pub mod Split
pub mod RoundTrip
mod Tests
use dandelion.Prelude.{ℕ, List, [], ◌∷◌, ◌++◌, Option, none, some, ◌==◌, if◌then◌else◌}
use dandelion.Prelude.Exec.{Result, ok, err}
use dandelion.Net.{Text, SocketAddr, AddrText}
use dandelion.Net.Decimal.{parse_u16, u16_to_string}

-- `Addr` and `Domain` of the source.
pub data Endpoint : Type 0 where
  addr : SocketAddr → Endpoint
  domain : Text → ℕ → Endpoint

pub data Error : Type 0 where
  no_port bad_port : Error

unfoldable pub new_from_domain : Text → ℕ → Endpoint
new_from_domain d port = domain d port

unfoldable pub new_from_addr : SocketAddr → Endpoint
new_from_addr a = addr a

unfoldable pub port : Endpoint → ℕ
port (addr a) = a.port
port (domain d p) = p

-- `str::rsplit_once`: the text is cut at the last such character.
abbrev pub split_step : ℕ → ℕ → Text → Option (Text × Text) → Option (Text × Text)
split_step c x xs (some (front, back)) = some (x ∷ front, back)
split_step c x xs none = if x == c then some ([], xs) else none

unfoldable pub rsplit_once : ℕ → Text → Option (Text × Text)
rsplit_once c [] = none
rsplit_once c (x ∷ xs) = split_step c x xs (rsplit_once c xs)

-- the second half of `from_str`, after the text was no socket address
unfoldable pub from_host_and_port : Text → Result Error Endpoint
unfolding rsplit_once new_from_domain
from_host_and_port value = elim (rsplit_once b':' value) [
  | none ↦ err no_port
  | some (host, p) ↦ elim (parse_u16 p) [
    | none ↦ err bad_port
    | some n ↦ ok (new_from_domain host n)
  ]
]

module _ (t : AddrText) where
  unfoldable pub hostname : Endpoint → Text
  hostname (addr a) = t.ip_to_string a.ip
  hostname (domain d p) = d

  unfoldable pub from_str : Text → Result Error Endpoint
  unfolding from_host_and_port new_from_addr
  from_str value = elim (t.parse_addr value) [
    | some a ↦ ok (new_from_addr a)
    | none ↦ from_host_and_port value
  ]

  -- `Display`
  unfoldable pub to_string : Endpoint → Text
  to_string (addr a) = t.addr_to_string a
  to_string (domain d p) = d ++ b':' ∷ u16_to_string p
