-- ===== src/Simplex/Server/Handshake.antt =====
-- core/src/core/simplex/server.rs, `handshake`, over the requests that hyper's server reads of the
-- connection, one after the other, until it ends.
pub mod Steps
pub mod First
pub mod Outcomes
mod Tests
use dandelion.Prelude.{List, [], ◌∷◌, Option, none, some, true}
use dandelion.Prelude.Exec.{Result, ok, err}
use dandelion.Net.{Text, AddrText}
use dandelion.Endpoint.{Endpoint}
use dandelion.Simplex.Server.{Config, Requests, Error, Signal, Env, hide_error_handler, fresh}

pub data HandshakeError : Type 0 where
  not_simplex_client : HandshakeError

-- What becomes of the connection once the endpoint is connected: a websocket, with the accept key
-- that the client gets; the end of the connection with no upgrade; or a panic of the handler.
pub data Outcome : Type 0 where
  upgraded : Text → Outcome
  closed crashed : Outcome

-- The handshake holds the receiver of the endpoint, and sends the done signal.
abbrev pub serving : Env
serving = record { receiver_lives = true; is_done = true }

module _ (t : AddrText) (rq : Requests) (config : Config) where
  -- the arms of the `select!`: a request whose handler sent an endpoint, or the end of the connection
  unfoldable pub selected :
      List rq.Request
      → Signal
      → Result HandshakeError (Endpoint × rq.Request × Signal × List rq.Request)
  selected [] s = err not_simplex_client
  selected (r ∷ rs) s = elim (hide_error_handler t rq config serving r s).1.signalled [
    | [] ↦ selected rs (hide_error_handler t rq config serving r s).1
    | e ∷ _ ↦ ok (e, r, s, rs)
  ]

  unfoldable pub handshake :
      List rq.Request → Result HandshakeError (Endpoint × rq.Request × Signal × List rq.Request)
  unfolding selected
  handshake rs = selected rs fresh

  -- the future: the handler of the request goes on, and hyper serves what follows it
  unfoldable pub connection : List rq.Request → Signal → Outcome
  connection [] s = closed
  connection (r ∷ rs) s = elim (hide_error_handler t rq config serving r s).0 [
    | ok (some key) ↦ upgraded key
    | ok none ↦ connection rs (hide_error_handler t rq config serving r s).1
    | err _ ↦ crashed
  ]
