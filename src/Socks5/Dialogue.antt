-- ===== src/Socks5/Dialogue.antt =====
-- The client of core/src/core/connector/socks5.rs against the server of
-- core/src/core/acceptor/socks5.rs: what each sends is what the other reads.
use dandelion.Prelude.{
  ℕ, ◌+◌, ◌*◌, ◌/◌, ◌%◌, ◌^◌, ◌<◌, ◌≤◌, [], ◌∷◌, ◌++◌, true, some, ◌≡◌, refl, length, arith,
}
use dandelion.Prelude.Exec.{Exec}
use dandelion.Net.{Text, AddrText}
use dandelion.Net.Utf8.{is_utf8}
use dandelion.Endpoint.{Endpoint, domain, hostname, port}
use dandelion.Io.{Io, Wire, Talks, IsByteStream}
use dandelion.Io.Rules.{Talks-bind, Talks-pure, Talks-lift, Talks-then, Talks-await}
use dandelion.Socks5.Acceptor
use dandelion.Socks5.Acceptor.{handshake}
use dandelion.Socks5.Acceptor.Accepts.{host, handshake-accepts}
use dandelion.Socks5.Connector
use dandelion.Socks5.Connector.{
  to_u8, to_be_bytes, read, write, offer, request, skip_address, accept_answer, connect,
}

-- The bytes that the client sends for a host name and a port.
abbrev pub request_bytes : Text → ℕ → Text
request_bytes h p = 5 ∷ 1 ∷ 0 ∷ 3 ∷ length h ∷ (h ++ (p / 256 % 256) ∷ (p % 256) ∷ [])

abbrev pub client_bytes : Text → ℕ → Text
client_bytes h p = 5 ∷ 1 ∷ 0 ∷ request_bytes h p

-- The answer to a request for a name.
abbrev pub answer : Text
answer = 5 ∷ 0 ∷ 0 ∷ 1 ∷ 0 ∷ 0 ∷ 0 ∷ 0 ∷ 0 ∷ 0 ∷ []

module _ (t : AddrText) (io : Io) (w : Wire io) (stream : IsByteStream io w) where
  read-Talks : (bs : Text) → Talks io w (read t io (length bs)) bs [] bs
  read-Talks bs = Talks-lift io w Connector.Error.io _ bs [] bs (stream.read_exact-Talks bs)

  write-Talks : (bs : Text) → Talks io w (write t io bs) [] bs tt
  write-Talks bs = Talks-lift io w Connector.Error.io _ [] bs tt (stream.write_all-Talks bs)

  offer-Talks : Talks io w (offer t io) (5 ∷ 0 ∷ []) (5 ∷ 1 ∷ 0 ∷ []) tt
  unfolding offer
  offer-Talks = Talks-bind io w _ _ tt tt [] (5 ∷ 0 ∷ []) (5 ∷ 1 ∷ 0 ∷ []) [] (write-Talks _) (
      Talks-then io w _ _ (5 ∷ 0 ∷ []) tt (5 ∷ 0 ∷ []) [] (read-Talks (5 ∷ 0 ∷ []))
        (Talks-pure io w tt))

  request-Talks :
      (e : Endpoint)
      → length (hostname t e) ≤ 255
      → Talks io w (request t io e) [] (request_bytes (hostname t e) (port e)) tt
  unfolding request
  request-Talks e short =
      let fits : to_u8 (length (hostname t e)) ≡ some (length (hostname t e)) = ground arith in
      rw fits (
        Talks-bind io w _ _ tt tt [] [] (5 ∷ 1 ∷ 0 ∷ 3 ∷ length (hostname t e) ∷ []) _
          (write-Talks _)
          (Talks-bind io w _ _ tt tt [] [] (hostname t e) _ (write-Talks _) (write-Talks _)))

  accept_answer-Talks : Talks io w (accept_answer t io) answer [] tt
  unfolding accept_answer
  accept_answer-Talks =
      Talks-bind io w _ _ (5 ∷ 0 ∷ 0 ∷ 1 ∷ []) tt (5 ∷ 0 ∷ 0 ∷ 1 ∷ []) (0 ∷ 0 ∷ 0 ∷ 0 ∷ 0 ∷ 0 ∷ [])
        [] [] (read-Talks (5 ∷ 0 ∷ 0 ∷ 1 ∷ []))
        (Talks-then io w _ _ (0 ∷ 0 ∷ 0 ∷ 0 ∷ 0 ∷ 0 ∷ []) tt (0 ∷ 0 ∷ 0 ∷ 0 ∷ 0 ∷ 0 ∷ []) []
          (read-Talks (0 ∷ 0 ∷ 0 ∷ 0 ∷ 0 ∷ 0 ∷ [])) (Talks-pure io w tt))

  pub connect-Talks :
      (e : Endpoint)
      → length (hostname t e) ≤ 255
      → Talks io w (connect t io e) (5 ∷ 0 ∷ answer) (client_bytes (hostname t e) (port e)) tt
  unfolding connect
  connect-Talks e short =
      Talks-bind io w _ _ tt tt (5 ∷ 0 ∷ []) answer (5 ∷ 1 ∷ 0 ∷ []) _ offer-Talks
        (Talks-await io w _ _ tt tt answer _ (request-Talks e short) accept_answer-Talks)

module _ (t : AddrText) (client server : Io) (cw : Wire client) (sw : Wire server) where
  -- For two open connections that behave as tokio documents, and an endpoint whose host name is
  -- UTF-8 of at most 255 bytes and whose port is a `u16`: all that `connect` sends is what
  -- `handshake` reads; `handshake` returns the host name, as a domain whatever the endpoint was, and
  -- the port; and what it and its future then send, `5 0` and the answer, is all that `connect`
  -- reads, with success. Bytes behind these are read by neither.
  pub connect-handshake :
      (e : Endpoint)
      → IsByteStream client cw
      → IsByteStream server sw
      → length (hostname t e) ≤ 255
      → is_utf8 (hostname t e) ≡ true
      → port e < 2 ^ 16
      → (finish : Exec Acceptor.Error server.State (Unit {0})) × Talks server sw
          (handshake server)
          (client_bytes (hostname t e) (port e))
          (5 ∷ 0 ∷ [])
          (domain (hostname t e) (port e), finish)
        × Talks server sw finish [] answer tt
        × Talks client cw
            (connect t client e)
            (5 ∷ 0 ∷ answer)
            (client_bytes (hostname t e) (port e))
            tt
  connect-handshake e cs ss short text small =
      let h = hostname t e in
      let p = port e in
      let (finish, serves, finishes) =
        handshake-accepts server sw ss (0 ∷ []) 0 (p / 256 % 256) (p % 256) (host h) (omega arith)
          refl (omega arith, text) (omega arith) (omega arith) in
      let same : p / 256 % 256 * 256 + p % 256 ≡ p = omega arith in
      (finish, rw same at serves, finishes, connect-Talks t client cw cs e short)
