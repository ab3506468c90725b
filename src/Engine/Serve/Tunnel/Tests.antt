-- ===== src/Engine/Serve/Tunnel/Tests.antt =====
-- A client that asks for a tunnel to "h:80", with a script that connects to every endpoint.
use dandelion.Prelude.{ℕ, ◌+◌, [], ◌∷◌, Option, none, true, ◌≡◌, refl}
use dandelion.Prelude.Exec.{ok, err, Exec}
use dandelion.Net.{Text, AddrText}
use dandelion.Net.Decimal.{parse_u16}
use dandelion.Endpoint.{domain, from_str}
use dandelion.Http.Request.{Request}
use dandelion.Http.Handler.{empty}
use dandelion.Http.Handshake.{handshake}
use dandelion.Http.Handshake.Conn.{handshake_on}
use dandelion.Http.Handshake.Conn.Listed.{http, Client, server, server-Replies}
use dandelion.Engine.Connect.{ConnectRequest}
use dandelion.Engine.Config.{Engine}
use dandelion.Engine.Config.Sample.{rune}
use dandelion.Engine.Serve.{handle, at_endpoint, script}
use dandelion.Engine.Serve.Tunnel.{Tunnelled, handle-Tunnelled}

abbrev no_address : AddrText
no_address = record {
  parse_ip = λ s. none;
  ip_to_string = λ a. [];
  parse_addr = λ s. none;
  addr_to_string = λ a. [];
}

abbrev engine : Engine rune
engine = record { program = []; acceptors = []; cache = none }

abbrev call : Text → ConnectRequest → Option ℕ → Exec (Unit {0}) ℕ ℕ
call f r cache w = (ok 3, w + 1)

abbrev copied : ℕ → Exec (Unit {0}) (Client × ℕ) (ℕ × ℕ)
copied remote s = (ok (0, 0), s)

abbrev tunnel : Request http
tunnel = record { is_connect = true; uri = b'h' ∷ b':' ∷ b'8' ∷ b'0' ∷ []; headers = tt }

handle-Tunnelled_example :
    Tunnelled no_address http server
      (λ c. c.1)
      (λ c. Unit {0})
      rune
      copied
      (tunnel ∷ [], [])
      5
      (λ e. call [] (record { endpoint = e }) none 5)
      (from_str no_address (b'h' ∷ b':' ∷ b'8' ∷ b'0' ∷ []))
      (handle rune engine call copied
        (handshake_on no_address http server)
        []
        ((tunnel ∷ [], []), 5))
handle-Tunnelled_example =
    handle-Tunnelled no_address http server (λ c. c.1) (λ c. Unit {0}) rune copied server-Replies
      engine call [] (tunnel ∷ [], []) ([], []) tunnel 5 none refl refl refl

-- The client gets its reply; where the script fails it gets none.
carried_test :
    handle rune engine call copied (handshake_on no_address http server) [] ((tunnel ∷ [], []), 5)
    ≡ (ok (0, 0), (([], empty ∷ []), 6))
unfolding handle handshake_on handshake from_str parse_u16
carried_test = refl

refused_test :
    handle rune engine
      (λ f r cache w. (err tt, w))
      copied
      (handshake_on no_address http server)
      []
      ((tunnel ∷ [], []), 5)
    ≡ (err (at_endpoint (domain (b'h' ∷ []) 80) (script tt)), (([], []), 5))
unfolding handle handshake_on handshake from_str parse_u16
refused_test = refl
