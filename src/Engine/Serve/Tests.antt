-- ===== src/Engine/Serve/Tests.antt =====
-- A task over a pipe with a script that connects to port 443 only, and an engine with two acceptors.
use dandelion.Prelude.{
  ℕ, ◌+◌, ◌*◌, List, [], ◌∷◌, Option, none, some, ◌==◌, if◌then◌else◌, ◌≡◌, refl, arith,
}
use dandelion.Prelude.Exec.{ok, err, Exec}
use dandelion.Net.{Text, v4}
use dandelion.Net.Utf8.{is_utf8}
use dandelion.Endpoint.{Endpoint, port, domain}
use dandelion.Io.Pipe.{Ends, pipe, ends, pipe-IsByteStream}
use dandelion.Socks5.Acceptor.{handshake}
use dandelion.Socks5.Acceptor.Accepts.{host, asked, answer_bytes}
use dandelion.Engine.Connect.{ConnectRequest}
use dandelion.Engine.Config.{AcceptorConfig, socks5, http, Rune, Engine}
use dandelion.Engine.Serve.{at_endpoint, script, handle}
use dandelion.Engine.Serve.Dialogue.{Served, handle-Served}
use dandelion.Engine.Serve.Run.{Event, accepted, failed, panicked, run}
use dandelion.Engine.Serve.Run.Sample.{piped}

-- A script is its configuration; objects below 10 can be cloned.
abbrev rune : Rune
rune = record {
  World = List Endpoint;
  Error = Unit {0};
  Program = Text;
  Value = Text;
  Object = ℕ;
  call_config = λ p w. (ok p, w);
  as_config = λ v. ok (ok (record { acceptors = []; cache = none }));
  try_clone = λ o. some o;
}

abbrev engine : Engine rune
engine = record { program = []; acceptors = []; cache = some 7 }

abbrev connect_443 : Text → ConnectRequest → Option ℕ → Exec (Unit {0}) (List Endpoint) ℕ
unfolding port
connect_443 f r cache w = if port r.endpoint == 443 then (ok 1, r.endpoint ∷ w) else (err tt, w)

abbrev copied : ℕ → Exec (Unit {0}) (Ends × List Endpoint) (ℕ × ℕ)
copied remote s = (ok (0, 0), s)

-- A request for port `256 + lo` of the host "h".
abbrev client : ℕ → Ends
client lo = record { incoming = 5 ∷ 1 ∷ 0 ∷ 5 ∷ 1 ∷ 0 ∷ 3 ∷ 1 ∷ b'h' ∷ 1 ∷ lo ∷ 9 ∷ []; sent = [] }

handle-Served_example :
    Served rune pipe ends copied
      (asked (host (b'h' ∷ [])) (1 * 256 + 187))
      (client 187)
      (9 ∷ [])
      (answer_bytes (host (b'h' ∷ [])))
      (connect_443 [] (record { endpoint = asked (host (b'h' ∷ [])) (1 * 256 + 187) }) (some 7) [])
      (handle rune engine connect_443 copied (handshake pipe) [] (client 187, []))
unfolding is_utf8
handle-Served_example =
    handle-Served rune pipe ends copied engine connect_443 [] (0 ∷ []) 0 1 187 (host (b'h' ∷ []))
      (client 187) (9 ∷ []) [] (some 7) pipe-IsByteStream (omega arith) refl ((ground arith), refl)
      (omega arith) (omega arith) tt refl refl

-- The refused client is left without an answer.
refused_test : handle rune engine connect_443 copied (handshake pipe) [] (client 80, []) ≡ (
  err (at_endpoint (domain (b'h' ∷ []) 336) (script tt)),
  (record { incoming = 9 ∷ []; sent = 5 ∷ 0 ∷ [] }, []),
)
unfolding handle handshake is_utf8 connect_443
refused_test = refl

abbrev two : List AcceptorConfig
two =
    socks5 (record { ip = v4 []; port = 1; scope_id = 0 }) (b'f' ∷ [])
    ∷ http (record { ip = v4 []; port = 2; scope_id = 0 }) (b'g' ∷ [])
    ∷ []

abbrev events : List (ℕ × Event Ends (Unit {0}))
events =
    (1, accepted (client 1))
    ∷ (0, accepted (client 2))
    ∷ (1, failed tt)
    ∷ (0, accepted (client 3))
    ∷ []

-- the engine with these acceptors
abbrev listening : List AcceptorConfig → Engine rune
listening acceptors = record { program = []; acceptors = acceptors; cache = none }

-- An engine with no acceptor panics.
no_acceptor_test : run rune (piped rune) (listening []) events ≡ panicked
unfolding run
no_acceptor_test = refl
