-- ===== src/Socks5/Acceptor.antt =====
-- core/src/core/acceptor/socks5.rs: `handshake` reads a greeting and a request, and hands back the
-- endpoint with the future that answers the request.
pub mod Accepts
pub mod Total
pub mod Sound
use dandelion.Prelude.{
  ℕ, zero, suc, [], ◌∷◌, not, ◌==◌, ◌||◌, if◌then◌else◌, contains, Option, none, some,
}
use dandelion.Prelude.Exec.{Exec, ◌>>=◌, ◌>>◌, pure, bail, ensure, ok_or}
use dandelion.Net.{Text, IpAddr, v4, v6}
use dandelion.Net.Utf8.{is_utf8}
use dandelion.Endpoint.{Endpoint, new_from_domain, new_from_addr}
use dandelion.Io.{Io, IoError, lift}

pub data Error : Type 0 where
  io : IoError → Error
  version : ℕ → Error
  no_methods : Error
  only_no_auth : Error
  command : ℕ → Error
  not_utf8 : Error
  address_type : ℕ → Error
  -- `unreachable!()`
  panicked : Error

pub data IpOrDomain : Type 0 where
  ip : IpAddr → IpOrDomain
  name : Text → IpOrDomain

-- `buf[i]`, of a buffer that holds it
abbrev pub at : ℕ → Text → ℕ
at i [] = 0
at zero (b ∷ bs) = b
at (suc i) (b ∷ bs) = at i bs

-- What is answered, by the request's address type; `none` is the arm that cannot be reached.
unfoldable pub response_to : ℕ → Option Text
response_to request_type =
    if request_type == 1 || request_type == 3
    then some (5 ∷ 0 ∷ 0 ∷ 1 ∷ 0 ∷ 0 ∷ 0 ∷ 0 ∷ 0 ∷ 0 ∷ [])
    else if request_type == 4
    then some
        (5 ∷ 0 ∷ 0 ∷ 4 ∷ 0 ∷ 0 ∷ 0 ∷ 0 ∷ 0 ∷ 0 ∷ 0 ∷ 0 ∷ 0 ∷ 0 ∷ 0 ∷ 0 ∷ 0 ∷ 0 ∷ 0 ∷ 0 ∷ 0 ∷ 0 ∷ [])
    else none

-- the final `match` on the address, which has a socket address made of an IP
unfoldable pub endpoint_of : IpOrDomain → ℕ → Endpoint
unfolding new_from_domain new_from_addr
endpoint_of (name d) port = new_from_domain d port
endpoint_of (ip a) port = new_from_addr (record { ip = a; port = port; scope_id = 0 })

module _ (io : Io) where
  open io use {State, read_exact, read_u8, read_u16, write_all}

  abbrev pub read : ℕ → Exec Error State Text
  read n = lift Error.io (read_exact n)

  -- the arms of the `match` on the address type
  unfoldable pub read_ip4 : Exec Error State IpOrDomain
  read_ip4 = do buf ← read 4; pure (ip (v4 buf))

  unfoldable pub read_name : Exec Error State IpOrDomain
  read_name = do
    len ← lift Error.io read_u8
    buf ← read len
    ensure (is_utf8 buf) not_utf8
    pure (name buf)

  unfoldable pub read_ip6 : Exec Error State IpOrDomain
  read_ip6 = do buf ← read 16; pure (ip (v6 buf))

  unfoldable pub read_address : ℕ → Exec Error State IpOrDomain
  unfolding read_ip4 read_name read_ip6
  read_address t =
      if t == 1
      then read_ip4
      else if t == 3
      then read_name
      else if t == 4
      then read_ip6
      else bail (address_type t)

  -- the hello, the methods and the answer to them
  unfoldable pub greet : Exec Error State (Unit {0})
  greet = do
    hello ← read 2
    ensure (at 0 hello == 5) (version (at 0 hello))
    ensure (not (at 1 hello == 0)) no_methods
    methods ← read (at 1 hello)
    ensure (contains methods 0) only_no_auth
    lift Error.io (write_all (5 ∷ 0 ∷ []))

  -- the request, behind the greeting
  unfoldable pub take_request : Exec Error State (Endpoint × Exec Error State (Unit {0}))
  unfolding read_address endpoint_of response_to
  take_request = do
    request ← read 4
    ensure (at 0 request == 5) (version (at 0 request))
    ensure (at 1 request == 1) (command (at 1 request))
    ip_or_domain ← read_address (at 3 request)
    port ← lift Error.io read_u16
    response ← ok_or (response_to (at 3 request)) panicked
    pure (endpoint_of ip_or_domain port, lift Error.io (write_all response))

  unfoldable pub handshake : Exec Error State (Endpoint × Exec Error State (Unit {0}))
  unfolding greet take_request
  handshake = do greet; take_request
