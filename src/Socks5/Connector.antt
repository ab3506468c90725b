-- ===== src/Socks5/Connector.antt =====
-- core/src/core/connector/socks5.rs: `connect` asks the server behind `nexthop` for the endpoint.
use dandelion.Prelude.{
  ℕ, ◌+◌, ◌/◌, ◌%◌, [], ◌∷◌, ◌==◌, if◌then◌else◌, leb, length, Option, none, some,
}
use dandelion.Prelude.Exec.{Exec, ◌>>=◌, ◌>>◌, pure, bail, ensure, ok_or}
use dandelion.Net.{Text, AddrText}
use dandelion.Endpoint.{Endpoint, hostname, port}
use dandelion.Io.{Io, IoError, lift}
use dandelion.Socks5.Acceptor.{at}

pub data Error : Type 0 where
  io : IoError → Error
  version : ℕ → Error
  auth_method : ℕ → Error
  domain_too_long : Error
  status : ℕ → Error
  reserved : Error
  address_type : ℕ → Error

-- `usize::try_into::<u8>`
unfoldable pub to_u8 : ℕ → Option ℕ
to_u8 n = if leb n 255 then some n else none

-- `u16::to_be_bytes`
unfoldable pub to_be_bytes : ℕ → Text
to_be_bytes n = (n / 256 % 256) ∷ (n % 256) ∷ []

module _ (t : AddrText) (nexthop : Io) where
  open nexthop use {State, read_exact, read_u8, write_all}

  abbrev pub read : ℕ → Exec Error State Text
  read n = lift Error.io (read_exact n)

  abbrev pub write : Text → Exec Error State (Unit {0})
  write bs = lift Error.io (write_all bs)

  -- the greeting
  unfoldable pub offer : Exec Error State (Unit {0})
  offer = do
    write (5 ∷ 1 ∷ 0 ∷ [])
    buf ← read 2
    ensure (at 0 buf == 5) (version (at 0 buf))
    ensure (at 1 buf == 0) (auth_method (at 1 buf))

  -- the request; the endpoint is always sent as a domain
  unfoldable pub request : Endpoint → Exec Error State (Unit {0})
  unfolding to_u8 to_be_bytes
  request endpoint = do
    len ← ok_or (to_u8 (length (hostname t endpoint))) domain_too_long
    write (5 ∷ 1 ∷ 0 ∷ 3 ∷ len ∷ [])
    write (hostname t endpoint)
    write (to_be_bytes (port endpoint))

  -- the bound address of the answer is read and dropped
  unfoldable pub skip_address : ℕ → Exec Error State (Unit {0})
  skip_address kind =
      if kind == 1
      then (do read 6; pure tt)
      else if kind == 3
      then (do len ← lift Error.io read_u8; read (len + 2); pure tt)
      else if kind == 4
      then (do read 18; pure tt)
      else bail (address_type kind)

  unfoldable pub accept_answer : Exec Error State (Unit {0})
  unfolding skip_address
  accept_answer = do
    buf ← read 4
    ensure (at 0 buf == 5) (version (at 0 buf))
    ensure (at 1 buf == 0) (status (at 1 buf))
    ensure (at 2 buf == 0) reserved
    skip_address (at 3 buf)

  unfoldable pub connect : Endpoint → Exec Error State (Unit {0})
  unfolding offer request accept_answer
  connect endpoint = do offer; request endpoint; accept_answer
