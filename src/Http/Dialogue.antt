-- ===== src/Http/Dialogue.antt =====
-- The two sides of HTTP's CONNECT: core/src/core/connector/http.rs asks, and
-- core/src/core/acceptor/http.rs answers.
mod Tests
use Prim.Native.Char.{code}
use Prim.Native.String.{String}
use dandelion.Prelude.{
  ℕ, ◌<◌, ◌^◌, List, [], ◌∷◌, ◌++◌, Option, none, some, Bool, true, ◌≡◌, ◌≢◌, refl, sym, ◌∙◌, ap,
  length, append_assoc,
}
use dandelion.Prelude.Exec.{Result, ok, Exec}
use dandelion.Net.{Text, AddrText, ReadsBack}
use dandelion.Io.{Io, Wire, IsByteStream}
use dandelion.Io.ReadBuf.{ReadBuf, IsReadBuf}
use dandelion.Endpoint.{Endpoint, port, to_string, from_str}
use dandelion.Endpoint.RoundTrip.{canonical, from_str-to_string}
use dandelion.Http.Connector.{Parsed, request_text, connect}
use dandelion.Http.Connector.Accepted.{IsAccepting, CameWithEnd, connect-accepted}
use dandelion.Http.Request.{HttpTypes, Request}
use dandelion.Http.Handler.{Reply, empty}
use dandelion.Http.Handshake.Conn.{Server, ConnError, Replies, future, handshake_on}
use dandelion.Http.Handshake.Conn.Tunnels.{handshake_on-handed, future-finish}

abbrev ascii : String → Text
ascii String.[] = []
ascii (String.◌∷◌ c s) = code c ∷ ascii s

-- The head of a CONNECT request for a target (RFC 9110, section 9.3.6), with the one header `Host`.
abbrev pub connect_head : Text → Text → Text
connect_head target host =
    ascii "CONNECT "
    ++ (target
        ++ (ascii " HTTP/1.1" ++ 13 ∷ 10 ∷ (ascii "Host: " ++ (host ++ 13 ∷ 10 ∷ 13 ∷ 10 ∷ []))))

-- What hyper documents of its server: such a head is a request with that method, and its URI is the
-- target, which prints as it was read. `IsAuthority` holds of the texts that a URI's authority can be.
pub record ReadsConnect (h : HttpTypes) (read_head : Text → Option (Request h))
    (IsAuthority : Text → Type 0) : Type 0 where
  pub read_head-connect :
      (target host : Text)
      → IsAuthority target
      → IsAuthority host
      → (r : Request h) × (read_head (connect_head target host) ≡ some r)
        × (r.is_connect ≡ true)
        × (h.uri_to_string r.uri ≡ target)

request_text-connect_head :
    (t : AddrText) (e : Endpoint) → request_text t e ≡ connect_head (to_string t e) (to_string t e)
unfolding request_text
request_text-connect_head t e = simp (append_assoc)

module _ (t : AddrText) (h : HttpTypes) {Sender : Type 0} (server : Server h Sender)
    (sent : server.State → List (Reply (Unit {0}))) (IsOpen : server.State → Type 0)
    (read_head : Text → Option (Request h)) (IsAuthority : Text → Type 0) (nexthop : Io)
    (w : Wire nexthop) (read_buf : ReadBuf nexthop) (parse : Text → Parsed) where
  -- For an open connection of the client's that behaves as tokio documents, and a server connection
  -- that behaves as hyper documents and is open once the request is read, and an endpoint whose port is a `u16` and whose text can be the
  -- authority of a URI: all that `connect` sends is the head of the request that `handshake` reads;
  -- `handshake` gives that endpoint (a domain that is the text of a socket address comes out as
  -- that address); its future sends the empty reply and nothing else; and where the text of this
  -- reply, a head with the status 200, comes back to the client, `connect` succeeds. Of what comes
  -- behind it, no more is lost than what came in one part with its end.
  pub connect-handshake_on :
      (fuel : ℕ) (e : Endpoint) (c : nexthop.State) (s s1 : server.State) (head rest : Text)
      → ReadsBack t
      → port e < 2 ^ 16
      → ReadsConnect h read_head IsAuthority
      → IsAuthority (to_string t e)
      → Replies server sent IsOpen
      → IsReadBuf nexthop w read_buf
      → IsByteStream nexthop w
      → IsAccepting parse head
      → head ≢ []
      → w.IsOpen c
      → w.incoming c ≡ head ++ rest
      → length (head ++ rest) < fuel
      → server.read_request s ≡ (read_head (request_text t e), s1)
      → IsOpen s1
      → (c' : nexthop.State) × (lost : Text) × (s' : server.State) × (fut : Exec
          (ConnError server.Error)
          server.State
          (Unit {0}))
        × (connect nexthop read_buf parse t fuel e c ≡ (ok tt, c'))
        × (w.sent c' ≡ w.sent c ++ request_text t e)
        × (rest ≡ lost ++ w.incoming c')
        × CameWithEnd nexthop w read_buf parse rest lost c'
        × (handshake_on t h server s ≡ (ok (canonical t e, fut), s1))
        × (fut s1 ≡ (ok tt, s'))
        × (sent s' ≡ sent s ++ empty ∷ [])
  connect-handshake_on fuel e c s s1 head rest back bound reads authority replies rb stream
        accepting some_head o comes enough read stays =
      let (r, is_read, connects, target) =
        reads.read_head-connect (to_string t e) (to_string t e) authority authority in
      let got : server.read_request s ≡ (some r, s1) =
        read
        ∙ ap (λ z. (read_head z, s1)) (request_text-connect_head t e)
        ∙ ap (λ z. (z, s1)) is_read in
      let parsed : from_str t (h.uri_to_string r.uri) ≡ ok (canonical t e) =
        ap (from_str t) target ∙ from_str-to_string t e back bound in
      let (c', lost, succeeds, behind, last, asks) =
        connect-accepted nexthop w read_buf parse rb head rest accepting t fuel e c stream o comes
          some_head enough in
      let (s', done) = replies.finish-open s1 stays in
      let out : sent s' ≡ sent s1 ++ empty ∷ [] = replies.sent-finish s1 s' done in
      let finishes = future-finish t h server s1 r (canonical t e) connects parsed in
      (
        c',
        lost,
        s',
        future t h server true r,
        succeeds,
        asks,
        behind,
        last,
        handshake_on-handed t h server s s1 r (ok (canonical t e)) got connects parsed,
        finishes ∙ rw done refl,
        out
            ∙ ap (λ z. z ++ empty ∷ [])
                (ap (λ z. sent z.1) (sym got) ∙ replies.sent-read_request s),
      )
