-- ===== src/Http/Handshake/Conn.antt =====
-- core/src/core/acceptor/http.rs, `handshake` on a connection: hyper's server connection, and its
-- client for a plain request, are parameters.
pub mod Tunnels
pub mod Listed
use dandelion.Prelude.{◌++◌, [], ◌∷◌, List, Option, none, some, Bool, true, false, ◌≡◌}
use dandelion.Prelude.Exec.{Result, ok, err, Exec, ◌>>=◌}
use dandelion.Io.{lift}
use dandelion.Net.{AddrText}
use dandelion.Endpoint.{Endpoint}
use dandelion.Http.Request.{HttpTypes, Request}
use dandelion.Http.Handler.{Reply, empty, handler, start}
use dandelion.Http.Handshake.{HandshakeError, no_request, handshake}

-- `read_request` polls the connection until the handler of the first request has it, or the
-- connection ends. `finish` polls it to its end with the handler's reply. `client_handshake` is
-- hyper's client over a duplex, and `spawn` leaves the connection to a task of its own, with the
-- client that the handlers send requests on by.
pub record Server (h : HttpTypes) (Sender : Type 0) : Type 1 where
  pub State : Type 0
  pub Error : Type 0
  pub read_request : State → Option (Request h) × State
  pub finish : Reply (Unit {0}) → Exec Error State (Unit {0})
  pub client_handshake : Exec Error State Sender
  pub spawn : Sender → Request h → State → State

pub data ConnError (E : Type 0) : Type 0 where
  not_first : HandshakeError → ConnError E
  hyper : E → ConnError E

module _ (t : AddrText) (h : HttpTypes) {Sender : Type 0} (server : Server h Sender) where
  open server use {State, Error, read_request, finish, client_handshake, spawn}

  -- the reply to a CONNECT, once the done signal is there
  unfoldable pub reply_to : Request h → Reply (Unit {0})
  unfolding handler start
  reply_to r =
      (handler t h {Sender = Sender}
        (record { receiver_lives = true; done = some none; is_ready = false; answer = none }) r
        start).0

  -- the futures that are handed back
  unfoldable pub future : Bool → Request h → Exec (ConnError Error) State (Unit {0})
  unfolding reply_to
  future true r = lift hyper (finish (reply_to r))
  future false r = do sender ← lift hyper client_handshake; λ s. (ok tt, spawn sender r s)

  abbrev pub Handed : Type 0
  Handed = Endpoint × Exec (ConnError Error) State (Unit {0})

  abbrev pub handed_on :
      Request h → Result HandshakeError (Bool × Endpoint) → Result (ConnError Error) Handed
  handed_on r (err x) = err (not_first x)
  handed_on r (ok (is_connect, e)) = ok (e, future is_connect r)

  abbrev pub first_request : Option (Request h) → Result (ConnError Error) Handed
  first_request none = err (not_first no_request)
  first_request (some r) = handed_on r (handshake t h (some r))

  unfoldable pub handshake_on : Exec (ConnError Error) State Handed
  unfolding future
  handshake_on s = (first_request (read_request s).0, (read_request s).1)

-- What hyper documents, over the replies that were sent: to read sends nothing; a connection that is
-- polled to its end with an empty reply to a CONNECT, and without an error, sent the reply and
-- nothing else. `IsOpen` holds of a connection that stays usable until then, on which there is no
-- error.
pub record Replies {h : HttpTypes} {Sender : Type 0} (server : Server h Sender)
    (sent : server.State → List (Reply (Unit {0}))) (IsOpen : server.State → Type 0) : Type 0 where
  pub sent-read_request : (s : server.State) → sent (server.read_request s).1 ≡ sent s
  pub sent-finish :
      (s s' : server.State) → server.finish empty s ≡ (ok tt, s') → sent s' ≡ sent s ++ empty ∷ []
  pub finish-open :
      (s : server.State) → IsOpen s → (s' : server.State) × (server.finish empty s ≡ (ok tt, s'))
