-- ===== src/Http/Connector.antt =====
-- core/src/core/connector/http.rs: a connection through a proxy, by the method CONNECT. The parser of
-- responses is that of the crate httparse, a parameter.
pub mod Response
pub mod Accepted
pub mod Sample
mod Tests
use dandelion.Prelude.{
  ℕ, zero, suc, ◌+◌, List, [], ◌∷◌, ◌++◌, Option, none, some, Bool, true, false, ◌==◌,
  if◌then◌else◌,
}
use dandelion.Prelude.Exec.{Result, Exec, ◌>>=◌, ◌>>◌, pure, bail}
use dandelion.Net.{Text, AddrText}
use dandelion.Endpoint.{Endpoint, to_string}
use dandelion.Io.{Io, IoError, lift}
use dandelion.Io.ReadBuf.{ReadBuf}

-- What `Response::parse` says of the bytes so far; `complete` holds the status code.
pub data Parsed : Type 0 where
  invalid partial_head : Parsed
  complete : Option ℕ → Parsed

-- `out_of_fuel` is no error of the source: the model counts the rounds of the loop down.
pub data Error : Type 0 where
  io : IoError → Error
  bad_response refused out_of_fuel : Error

abbrev pub is_ok : Option ℕ → Bool
is_ok (some code) = code == 200
is_ok none = false

abbrev pub crlf : Text
crlf = 13 ∷ 10 ∷ []

module _ (t : AddrText) where
  -- `CONNECT {} HTTP/1.1\r\nHost: {}\r\n\r\n`
  unfoldable pub request_text : Endpoint → Text
  request_text e =
      b'C'
      ∷ b'O'
      ∷ b'N'
      ∷ b'N'
      ∷ b'E'
      ∷ b'C'
      ∷ b'T'
      ∷ b' '
      ∷ (to_string t e
          ++ b' '
            ∷ b'H'
            ∷ b'T'
            ∷ b'T'
            ∷ b'P'
            ∷ b'/'
            ∷ b'1'
            ∷ b'.'
            ∷ b'1'
            ∷ 13
            ∷ 10
            ∷ b'H'
            ∷ b'o'
            ∷ b's'
            ∷ b't'
            ∷ b':'
            ∷ b' '
            ∷ (to_string t e ++ crlf ++ crlf))

module _ (nexthop : Io) (read_buf : ReadBuf nexthop) (parse : Text → Parsed) where
  open nexthop use {State, write_all}

  -- the body of the loop, behind the read; `rest` is the next round
  abbrev pub check : Parsed → Exec Error State (Unit {0}) → Exec Error State (Unit {0})
  check invalid rest = bail bad_response
  check partial_head rest = rest
  check (complete code) rest = if is_ok code then pure tt else bail refused

  -- a read of nothing ends the loop
  abbrev pub next : Text → Text → (Text → Exec Error State (Unit {0})) → Exec Error State (Unit {0})
  next buf [] round = pure tt
  next buf (b ∷ bs) round = check (parse (buf ++ b ∷ bs)) (round (buf ++ b ∷ bs))

  unfoldable pub read_response : ℕ → Text → Exec Error State (Unit {0})
  read_response zero buf = bail out_of_fuel
  read_response (suc fuel) buf = do bs ← lift Error.io read_buf; next buf bs (read_response fuel)

  unfoldable pub connect : AddrText → ℕ → Endpoint → Exec Error State (Unit {0})
  unfolding read_response request_text
  connect t fuel endpoint = do
    lift Error.io (write_all (request_text t endpoint))
    read_response fuel []
