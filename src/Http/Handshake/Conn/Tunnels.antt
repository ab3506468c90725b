-- ===== src/Http/Handshake/Conn/Tunnels.antt =====
-- A connection whose first request is a CONNECT.
use dandelion.Prelude.{some, true, ◌≡◌, refl, ◌∙◌, ap}
use dandelion.Prelude.Exec.{Result, ok, err, Exec}
use dandelion.Io.{lift}
use dandelion.Net.{AddrText}
use dandelion.Endpoint.{Endpoint, from_str}
use dandelion.Http.Request.{HttpTypes, Request}
use dandelion.Http.Handler.{empty, handler, start}
use dandelion.Http.Handshake.{no_request, handshake}
use dandelion.Http.Handshake.Conn.{
  Server, ConnError, not_first, hyper, handed_on, first_request, reply_to, future, handshake_on,
}

module _ (t : AddrText) (h : HttpTypes) {Sender : Type 0} (server : Server h Sender) where
  -- what the handshake makes of a CONNECT for an endpoint
  abbrev pub handed :
      Request h
      → Result dandelion.Endpoint.Error Endpoint
      → Result
          (ConnError server.Error)
          (Endpoint × Exec (ConnError server.Error) server.State (Unit {0}))
  handed r (ok e) = ok (e, future t h server true r)
  handed r (err x) = err (not_first no_request)

  handshake-handed :
      (r : Request h) (o : Result dandelion.Endpoint.Error Endpoint)
      → r.is_connect ≡ true
      → from_str t (h.uri_to_string r.uri) ≡ o
      → handed_on t h server r (handshake t h (some r)) ≡ handed r o
  unfolding handshake handler start
  handshake-handed r (ok e) connects parsed = rw (connects, parsed) refl
  handshake-handed r (err x) connects parsed = rw (connects, parsed) refl

  pub handshake_on-handed :
      (s s1 : server.State) (r : Request h) (o : Result dandelion.Endpoint.Error Endpoint)
      → server.read_request s ≡ (some r, s1)
      → r.is_connect ≡ true
      → from_str t (h.uri_to_string r.uri) ≡ o
      → handshake_on t h server s ≡ (handed r o, s1)
  unfolding handshake_on
  handshake_on-handed s s1 r o read connects parsed =
      (λ i. (first_request t h server (read i).0, (read i).1))
      ∙ ap (λ z. (z, s1)) (handshake-handed r o connects parsed)

  reply_to-empty :
      (r : Request h) (e : Endpoint)
      → r.is_connect ≡ true
      → from_str t (h.uri_to_string r.uri) ≡ ok e
      → reply_to t h server r ≡ empty
  unfolding reply_to
  reply_to-empty r e connects parsed = rw (reply_to, connects, parsed) refl

  -- the future is hyper's connection, with the empty reply
  pub future-finish :
      (s1 : server.State) (r : Request h) (e : Endpoint)
      → r.is_connect ≡ true
      → from_str t (h.uri_to_string r.uri) ≡ ok e
      → future t h server true r s1 ≡ lift hyper (server.finish empty) s1
  unfolding future
  future-finish s1 r e connects parsed = rw (reply_to-empty r e connects parsed) refl
