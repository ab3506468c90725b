-- ===== src/Simplex/Client.antt =====
-- core/src/core/simplex/client.rs (and core/src/core/connector/simplex.rs, which calls it): a
-- connection through a simplex server. The building of requests, of the crates http and tungstenite,
-- and the websocket's handshake are parameters.
use dandelion.Prelude.{Option, none, some}
use dandelion.Prelude.Exec.{Result, ok, err}
use dandelion.Prelude.Partial.{◌>>=◌}
use dandelion.Net.{Text, AddrText}
use dandelion.Endpoint.{Endpoint, to_string}
use dandelion.Simplex.Server.{Config, Requests, endpoint_header_key}
use dandelion.Simplex.Stream.{Ws, WebSocketStreamToAsyncWrite, new}

-- `request_for` is the URI of a host and a path made into a websocket's request; `parse_name` and
-- `parse_value` read the name and the value of a header, and `insert` is `HeaderMap::insert`.
pub record Builder (rq : Requests) : Type 0 where
  pub request_for : Text → Text → Option rq.Request
  pub parse_name : Text → Option Text
  pub parse_value : Text → Option Text
  pub insert : Text → Text → rq.Request → rq.Request

pub data Error (E : Type 0) : Type 0 where
  bad_request : Error E
  websocket : E → Error E

module _ (t : AddrText) (rq : Requests) (b : Builder rq) where
  unfoldable pub client_request : Endpoint → Config → Option rq.Request
  client_request endpoint config = do
    request ← b.request_for config.host config.path
    name ← b.parse_name config.secret_header.0
    value ← b.parse_value config.secret_header.1
    key ← b.parse_name endpoint_header_key
    target ← b.parse_value (to_string t endpoint)
    some (b.insert key target (b.insert name value request))

  module _ (ws : Ws) {E Io : Type 0} (client_async : rq.Request → Io → Result E ws.State) where
    abbrev pub opened : Result E ws.State → Result (Error E) (WebSocketStreamToAsyncWrite ws)
    opened (ok s) = ok (new ws s)
    opened (err e) = err (websocket e)

    abbrev pub send : Io → Option rq.Request → Result (Error E) (WebSocketStreamToAsyncWrite ws)
    send io none = err bad_request
    send io (some request) = opened (client_async request io)

    unfoldable pub connect :
        Io → Endpoint → Config → Result (Error E) (WebSocketStreamToAsyncWrite ws)
    unfolding client_request
    connect io endpoint config = send io (client_request endpoint config)
