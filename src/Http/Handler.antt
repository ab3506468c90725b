-- ===== src/Http/Handler.antt =====
-- core/src/core/acceptor/http.rs, `handler`: the requests of one connection to the proxy, which
-- hyper's server passes on one after the other, since the handler holds the lock of its state.
pub mod Faithful
use dandelion.Prelude.{
  ℕ, List, [], ◌∷◌, ◌++◌, Option, none, some, Bool, true, false, ◌&&◌, ◌==◌, eq_text, if◌then◌else◌,
}
use dandelion.Prelude.Exec.{Result, ok, err}
use dandelion.Io.{map_err}
use dandelion.Net.{Text, IpAddr, v4, v6, SocketAddr, AddrText}
use dandelion.Endpoint.{Endpoint, addr, domain, from_str}
use dandelion.Http.Request.{HttpTypes, Request, transform_proxy_request}

-- The comparisons that are derived for `Endpoint`, and std's of addresses.
abbrev pub eq_ip : IpAddr → IpAddr → Bool
eq_ip (v4 a) (v4 b) = eq_text a b
eq_ip (v6 a) (v6 b) = eq_text a b
eq_ip _ _ = false

abbrev pub eq_endpoint : Endpoint → Endpoint → Bool
eq_endpoint (addr a) (addr b) = eq_ip a.ip b.ip && (a.port == b.port && a.scope_id == b.scope_id)
eq_endpoint (domain d p) (domain e q) = eq_text d e && p == q
eq_endpoint _ _ = false

pub data Error : Type 0 where
  connect_not_first no_host not_proxy_request other_host client_error : Error
  bad_endpoint : dandelion.Endpoint.Error → Error

-- `State`. `not_connected` tells whether the signal is still to be used; `Sender` is hyper's
-- `SendRequest`, a connection to the server.
pub data State (Sender : Type 0) : Type 0 where
  not_connected : Bool → State Sender
  connected : Endpoint → Sender → State Sender

-- `panicked` is a failed `expect` or `unwrap` or the `unreachable!()`.
pub data Reply (Response : Type 0) : Type 0 where
  empty : Reply Response
  relayed : Response → Reply Response
  failed : Error → Reply Response
  panicked : Reply Response

-- What happens around one request: whether the receiver of the endpoint lives, what the `done` signal
-- brings (`none` where its sender was dropped), whether the client connection becomes ready, and the
-- server's answer.
pub record Env (Sender Response : Type 0) : Type 0 where
  pub receiver_lives : Bool
  pub done : Option (Option Sender)
  pub is_ready : Bool
  pub answer : Option Response

-- The state behind the lock, and what was done: the endpoints that were signalled, with the flag of
-- a CONNECT, and the requests that were sent on, each as it came and as it went.
pub record Connection (h : HttpTypes) (Sender : Type 0) : Type 0 where
  pub state : State Sender
  pub signalled : List (Bool × Endpoint)
  pub forwarded : List (Request h × Request h)

abbrev pub accepted : {Sender Response : Type 0} → Option (Option Sender) → Reply Response
accepted (some _) = empty
accepted none = panicked

abbrev pub relay : {Response : Type 0} → Option Response → Reply Response
relay (some answer) = relayed answer
relay none = failed client_error

module _ (h : HttpTypes) {Sender : Type 0} where
  abbrev pub signal : Bool → Endpoint → Connection h Sender → Connection h Sender
  signal is_connect e c = record c { signalled = c.signalled ++ (is_connect, e) ∷ [] }

  abbrev pub forward : Request h × Request h → Connection h Sender → Connection h Sender
  forward r c = record c { forwarded = c.forwarded ++ r ∷ [] }

module _ (t : AddrText) (h : HttpTypes) where
  abbrev pub parsed : Result dandelion.Endpoint.Error Endpoint → Text → Result Error Endpoint
  parsed (ok e) host = ok e
  parsed (err _) host = map_err bad_endpoint (from_str t (host ++ b':' ∷ b'8' ∷ b'0' ∷ []))

  abbrev pub parse_host : Option Text → Result Error Endpoint
  parse_host none = err no_host
  parse_host (some host) = parsed (from_str t host) host

  -- the endpoint of a request that is no CONNECT
  unfoldable pub target_of : Request h → Result Error Endpoint
  target_of r = parse_host (h.host_of r.uri)

module _ (t : AddrText) (h : HttpTypes) {Sender Response : Type 0} where
  abbrev pub connect_to :
      Env Sender Response
      → Result dandelion.Endpoint.Error Endpoint
      → Connection h Sender
      → Reply Response × Connection h Sender
  connect_to env (err e) c = (failed (bad_endpoint e), c)
  connect_to env (ok e) c =
      if env.receiver_lives then (accepted env.done, signal h true e c) else (panicked, c)

  -- a CONNECT request
  unfoldable pub handle_connect :
      Env Sender Response
      → Request h
      → State Sender
      → Connection h Sender
      → Reply Response × Connection h Sender
  handle_connect env r (not_connected true) c =
      connect_to env (from_str t (h.uri_to_string r.uri)) (record c { state = not_connected false })
  handle_connect env r (not_connected false) c = (failed connect_not_first, c)
  handle_connect env r (connected _ _) c = (failed connect_not_first, c)

  -- the transformed request of the first that is no CONNECT, over the new client connection
  abbrev pub send_first :
      Env Sender Response
      → Request h
      → Endpoint
      → Sender
      → Option (Request h)
      → Connection h Sender
      → Reply Response × Connection h Sender
  send_first env r e sender none c = (failed not_proxy_request, c)
  send_first env r e sender (some r') c =
      (relay env.answer, forward h (r, r') (record c { state = connected e sender }))

  abbrev pub when_done :
      Env Sender Response
      → Request h
      → Endpoint
      → Option (Option Sender)
      → Connection h Sender
      → Reply Response × Connection h Sender
  when_done env r e none c = (panicked, c)
  when_done env r e (some none) c = (panicked, c)
  when_done env r e (some (some sender)) c =
      send_first env r e sender (transform_proxy_request h r) c

  unfoldable pub proxy_first :
      Env Sender Response
      → Request h
      → Result Error Endpoint
      → Connection h Sender
      → Reply Response × Connection h Sender
  proxy_first env r (err e) c = (failed e, c)
  proxy_first env r (ok e) c =
      if env.receiver_lives then when_done env r e env.done (signal h false e c) else (panicked, c)

  abbrev pub send_next :
      Env Sender Response
      → Request h
      → Option (Request h)
      → Connection h Sender
      → Reply Response × Connection h Sender
  send_next env r none c = (failed not_proxy_request, c)
  send_next env r (some r') c =
      if env.is_ready then (relay env.answer, forward h (r, r') c) else (failed client_error, c)

  unfoldable pub proxy_next :
      Env Sender Response
      → Request h
      → Endpoint
      → Result Error Endpoint
      → Connection h Sender
      → Reply Response × Connection h Sender
  proxy_next env r target (err e) c = (failed e, c)
  proxy_next env r target (ok e) c =
      if eq_endpoint e target
      then send_next env r (transform_proxy_request h r) c
      else (failed other_host, c)

  -- any other request
  unfoldable pub handle_proxy :
      Env Sender Response
      → Request h
      → State Sender
      → Connection h Sender
      → Reply Response × Connection h Sender
  unfolding target_of proxy_first proxy_next
  handle_proxy env r (not_connected true) c =
      proxy_first env r (target_of t h r) (record c { state = not_connected false })
  handle_proxy env r (not_connected false) c = (panicked, c)
  handle_proxy env r (connected target sender) c = proxy_next env r target (target_of t h r) c

  unfoldable pub handler :
      Env Sender Response → Request h → Connection h Sender → Reply Response × Connection h Sender
  unfolding handle_connect handle_proxy
  handler env r c =
      if r.is_connect then handle_connect env r c.state c else handle_proxy env r c.state c

-- The state that the handshake makes.
unfoldable pub start : {h : HttpTypes} {Sender : Type 0} → Connection h Sender
start = record { state = not_connected true; signalled = []; forwarded = [] }
