-- ===== src/Simplex/Server.antt =====
-- core/src/core/simplex/mod.rs and server.rs: the handler of the requests that ask a simplex server
-- to carry a connection. The requests are those of the crates http and hyper, a parameter.
pub mod Authorised
pub mod Chain
pub mod Handshake
mod Tests
use dandelion.Prelude.{
  ℕ, List, [], ◌∷◌, ◌++◌, Option, none, some, Bool, true, false, ◌&&◌, eq_text, if◌then◌else◌,
}
use dandelion.Prelude.Exec.{Result, ok, err, Exec, ◌>>=◌, ◌>>◌, pure, bail, ensure, ok_or}
use dandelion.Net.{Text, AddrText}
use dandelion.Endpoint.{Endpoint, from_str}

-- `Config`; the secret header is its name and its value.
pub record Config : Type 0 where
  pub host : Text
  pub path : Text
  pub secret_header : Text × Text

-- `ENDPOINT_HEADER_KEY` and the names of the websocket's headers
abbrev pub endpoint_header_key : Text
endpoint_header_key =
    b'S' ∷ b'i' ∷ b'm' ∷ b'p' ∷ b'l' ∷ b'e' ∷ b'x' ∷ b'-' ∷ b'E' ∷ b'n' ∷ b'd' ∷ b'p' ∷ b'o' ∷ b'i'
    ∷ b'n' ∷ b't' ∷ []

-- A request: its path, the bytes of its header of a name, whether it asks for an upgrade to a
-- websocket; and `HeaderValue::to_str`. `key` and `version` are the headers of that name.
pub record Requests : Type 1 where
  pub Request : Type 0
  pub path : Request → Text
  pub header : Text → Request → Option Text
  pub to_str : Text → Option Text
  pub is_upgrade_request : Request → Bool
  pub key : Request → Option Text
  pub version : Request → Option Text
  pub derive_accept_key : Text → Text

pub data Error : Type 0 where
  wrong_path wrong_secret not_upgrade no_endpoint missing_key missing_version panicked : Error

-- The upgrade signal, whether it is still to be used; and the endpoints that were sent with it.
pub record Signal : Type 0 where
  pub is_present : Bool
  pub signalled : List Endpoint

-- Whether the receiver of the endpoint lives, and whether the done signal comes.
pub record Env : Type 0 where
  pub receiver_lives : Bool
  pub is_done : Bool

abbrev pub is_text : Option Text → Text → Bool
is_text (some a) b = eq_text a b
is_text none b = false

module _ (t : AddrText) (rq : Requests) where
  open rq use {Request, path, header, to_str, is_upgrade_request}

  abbrev pub str_of : Option Text → Option Text
  str_of (some v) = to_str v
  str_of none = none

  abbrev pub parsed : Option Text → Option Endpoint
  parsed none = none
  parsed (some s) = elim (from_str t s) [ ok e ↦ some e | err _ ↦ none ]

  unfoldable pub endpoint_of : Request → Option Endpoint
  endpoint_of r = parsed (str_of (header endpoint_header_key r))

  -- the response that completes the upgrade: the accept key
  unfoldable pub upgrade_response : Request → Exec Error Signal Text
  upgrade_response r = do
    key ← ok_or (rq.key r) missing_key
    ensure (is_text (rq.version r) (b'1' ∷ b'3' ∷ [])) missing_version
    pure (rq.derive_accept_key key)

  abbrev pub take_signal : Exec Error Signal (Unit {0})
  take_signal s =
      if s.is_present then (ok tt, record s { is_present = false }) else (err panicked, s)

  abbrev pub send_endpoint : Env → Endpoint → Exec Error Signal (Unit {0})
  send_endpoint env e s =
      if env.receiver_lives
      then (ok tt, record s { signalled = s.signalled ++ e ∷ [] })
      else (err panicked, s)

  -- the checks at the begin of `handler`
  unfoldable pub authorise : Config → Request → Exec Error Signal Endpoint
  unfolding endpoint_of
  authorise config r = do
    ensure (eq_text (path r) config.path) wrong_path
    ensure (is_text (str_of (header config.secret_header.0 r)) config.secret_header.1) wrong_secret
    ensure (is_upgrade_request r) not_upgrade
    ok_or (endpoint_of r) no_endpoint

  -- the rest, for an endpoint
  unfoldable pub accept : Env → Request → Endpoint → Exec Error Signal Text
  unfolding upgrade_response
  accept env r endpoint = do
    take_signal
    send_endpoint env endpoint
    ensure env.is_done panicked
    upgrade_response r

  unfoldable pub handler : Config → Env → Request → Exec Error Signal Text
  unfolding authorise accept
  handler config env r = do endpoint ← authorise config r; accept env r endpoint

  -- What the client sees: the accept key of an upgrade, or `none`, a page with the time, where the
  -- handler fails; `panicked` is no such error.
  abbrev pub hidden : Result Error Text × Signal → Result Error (Option Text) × Signal
  hidden (ok key, s) = (ok (some key), s)
  hidden (err panicked, s) = (err panicked, s)
  hidden (err _, s) = (ok none, s)

  unfoldable pub hide_error_handler : Config → Env → Request → Exec Error Signal (Option Text)
  unfolding handler
  hide_error_handler config env r s = hidden (handler config env r s)

-- The signal that the handshake makes.
abbrev pub fresh : Signal
fresh = record { is_present = true; signalled = [] }
