-- ===== src/Http/Handshake.antt =====
-- core/src/core/acceptor/http.rs, `handshake`: the first request gives the endpoint, and the future
-- that is handed back lets its handler go on.
pub mod Serves
pub mod Conn
pub mod Announces
use dandelion.Prelude.{List, [], ◌∷◌, Option, none, some, Bool, true, false, if◌then◌else◌}
use dandelion.Prelude.Exec.{Result, ok, err}
use dandelion.Net.{AddrText}
use dandelion.Endpoint.{Endpoint}
use dandelion.Http.Request.{HttpTypes, Request}
use dandelion.Http.Handler.{
  Reply, empty, relayed, failed, panicked, Env, Connection, handler, start,
}

pub data HandshakeError : Type 0 where
  no_request : HandshakeError

abbrev pub first_of : List (Bool × Endpoint) → Result HandshakeError (Bool × Endpoint)
first_of [] = err no_request
first_of (e ∷ _) = ok e

-- What the futures send as the done signal: nothing for a CONNECT, and else the client of the
-- server's end of the duplex.
unfoldable pub done_of : {Sender : Type 0} → Bool → Sender → Option (Option Sender)
done_of is_connect sender = if is_connect then some none else some (some sender)

module _ (t : AddrText) (h : HttpTypes) where
  -- The handler of the first request, up to its wait for the done signal.
  abbrev pub waiting : Env (Unit {0}) (Unit {0})
  waiting = record { receiver_lives = true; done = none; is_ready = false; answer = none }

  -- The first request that hyper reads of the connection, if there is one. Where its handler fails
  -- before the signal, hyper ends the connection.
  unfoldable pub handshake : Option (Request h) → Result HandshakeError (Bool × Endpoint)
  handshake none = err no_request
  handshake (some r) = first_of (handler t h waiting r start).1.signalled

module _ (t : AddrText) (h : HttpTypes) {Sender Response : Type 0} where
  -- The replies to the requests of a connection.
  unfoldable pub serve :
      List (Env Sender Response × Request h) → Connection h Sender → List (Reply Response)
  serve [] c = []
  serve ((env, r) ∷ rs) c = (handler t h env r c).0 ∷ serve rs (handler t h env r c).1
