-- ===== src/Socks5/Tests.antt =====
-- Runs of the two sides on connections in memory, and the theorems at inputs of their own.
use dandelion.Prelude.{◌*◌, ◌+◌, [], ◌∷◌, ◌++◌, ◌≡◌, refl, none, arith}
use dandelion.Prelude.Exec.{Exec, ok, err}
use dandelion.Net.{Text, AddrText}
use dandelion.Endpoint.{Endpoint, domain, hostname, port}
use dandelion.Io.{Talks, unexpected_eof, lift}
use dandelion.Io.Pipe.{Ends, pipe, ends, pipe-IsByteStream, pipe-ReportsSuccess}
use dandelion.Net.Utf8.{is_utf8}
use dandelion.Socks5.Acceptor
use dandelion.Socks5.Acceptor.{Error, handshake, panicked}
use dandelion.Socks5.Acceptor.Accepts.{ip4, asked, answer_bytes, handshake-accepts}
use dandelion.Socks5.Acceptor.Sound.{IsGreeting, IsRequest, handshake-only}
use dandelion.Socks5.Connector
use dandelion.Socks5.Connector.{connect}
use dandelion.Socks5.Dialogue.{client_bytes, answer, connect-handshake}

-- texts of addresses that no test reads
abbrev no_text : AddrText
no_text = record {
  parse_ip = λ t. none;
  ip_to_string = λ a. b'?' ∷ [];
  parse_addr = λ t. none;
  addr_to_string = λ a. b'?' ∷ [];
}

abbrev start : Text → Ends
start t = record { incoming = t; sent = [] }

abbrev hi_443 : Text
hi_443 = 5 ∷ 1 ∷ 0 ∷ 5 ∷ 1 ∷ 0 ∷ 3 ∷ 2 ∷ b'h' ∷ b'i' ∷ 1 ∷ 187 ∷ []

abbrev finish : Exec Error Ends (Unit {0})
finish = lift Error.io (pipe.write_all answer)

run_handshake :
    handshake pipe (start (hi_443 ++ 9 ∷ []))
    ≡ (ok (domain (b'h' ∷ b'i' ∷ []) 443, finish), record { incoming = 9 ∷ []; sent = 5 ∷ 0 ∷ [] })
unfolding handshake is_utf8
run_handshake = refl

run_bad_version : (handshake pipe (start (4 ∷ 1 ∷ []))).0 ≡ err (Acceptor.version 4)
unfolding handshake
run_bad_version = refl

run_short : (handshake pipe (start (5 ∷ []))).0 ≡ err (Error.io unexpected_eof)
unfolding handshake
run_short = refl

run_connect :
    connect no_text pipe (domain (b'h' ∷ b'i' ∷ []) 443) (start (5 ∷ 0 ∷ answer))
    ≡ (ok tt, record { incoming = []; sent = hi_443 })
unfolding connect hostname port
run_connect = refl

run_refused :
    (connect no_text pipe (domain (b'h' ∷ []) 443) (start (5 ∷ 0 ∷ 5 ∷ 1 ∷ 0 ∷ 1 ∷ []))).0
    ≡ err (Connector.status 1)
unfolding connect hostname port
run_refused = refl

handshake-accepts_example :
    (finish : Exec Error Ends (Unit {0})) × Talks pipe ends
      (handshake pipe)
      (5 ∷ 2 ∷ 2 ∷ 0 ∷ 5 ∷ 1 ∷ 0 ∷ 1 ∷ 127 ∷ 0 ∷ 0 ∷ 1 ∷ 0 ∷ 80 ∷ [])
      (5 ∷ 0 ∷ [])
      (asked (ip4 (127 ∷ 0 ∷ 0 ∷ 1 ∷ [])) (0 * 256 + 80), finish)
    × Talks pipe ends finish [] (answer_bytes (ip4 (127 ∷ 0 ∷ 0 ∷ 1 ∷ []))) tt
handshake-accepts_example =
    handshake-accepts pipe ends pipe-IsByteStream (2 ∷ 0 ∷ []) 0 0 80 (ip4 (127 ∷ 0 ∷ 0 ∷ 1 ∷ []))
      (omega arith) refl refl (omega arith) (omega arith)

handshake-only_example :
    (r1 : Text) × (r2 : Text) × IsGreeting r1
    × IsRequest (domain (b'h' ∷ b'i' ∷ []) 443) r2
    × (hi_443 ++ 9 ∷ [] ≡ (r1 ++ r2) ++ 9 ∷ [])
handshake-only_example =
    handshake-only pipe ends pipe-ReportsSuccess (start (hi_443 ++ 9 ∷ []))
      (record { incoming = 9 ∷ []; sent = 5 ∷ 0 ∷ [] }) (domain (b'h' ∷ b'i' ∷ []) 443) finish
      run_handshake

abbrev hi : Endpoint
hi = domain (b'h' ∷ b'i' ∷ []) 443

connect-handshake_example :
    (finish : Exec Error Ends (Unit {0})) × Talks pipe ends
      (handshake pipe)
      (client_bytes (hostname no_text hi) (port hi))
      (5 ∷ 0 ∷ [])
      (domain (hostname no_text hi) (port hi), finish)
    × Talks pipe ends finish [] answer tt
    × Talks pipe ends
        (connect no_text pipe hi)
        (5 ∷ 0 ∷ answer)
        (client_bytes (hostname no_text hi) (port hi))
        tt
unfolding hostname port is_utf8
connect-handshake_example =
    connect-handshake no_text pipe pipe ends ends hi pipe-IsByteStream pipe-IsByteStream
      (omega arith) refl (omega arith)
