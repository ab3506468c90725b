-- ===== src/Engine/Serve/Onward/Tests.antt =====
-- The way onward over two pipes.
use dandelion.Prelude.{ℕ, [], ◌∷◌, ◌++◌, Option, none, some}
use dandelion.Prelude.Exec.{ok, Exec}
use dandelion.Net.{Text}
use dandelion.Net.Coded.{coded}
use dandelion.Endpoint.{Endpoint, domain}
use dandelion.Io.Pipe.{Ends, pipe, ends}
use dandelion.Engine.Connect.{ConnectRequest, ConnectError}
use dandelion.Engine.Config.{Rune, Engine}
use dandelion.Engine.Serve.Onward.{Others, through}
use dandelion.Socks5.Connector
use dandelion.Socks5.Dialogue.{answer}

abbrev rune : Rune
rune = record {
  World = Ends;
  Error = ConnectError Connector.Error;
  Program = Text;
  Value = Text;
  Object = ℕ;
  call_config = λ p w. (ok p, w);
  as_config = λ v. ok (ok (record { acceptors = []; cache = none }));
  try_clone = λ o. some o;
}

abbrev engine : Engine rune
engine = record { program = []; acceptors = []; cache = none }

abbrev copied : ℕ → Exec (Unit {0}) (Ends × Ends) (ℕ × ℕ)
copied remote s = (ok (0, 0), s)

abbrev site : Endpoint
site = domain (b'h' ∷ []) 443

-- The client asks for port 443 of the host "h", and says one more byte; so does the further proxy.
abbrev client : Ends
client = record { incoming = 5 ∷ 1 ∷ 0 ∷ 5 ∷ 1 ∷ 0 ∷ 3 ∷ 1 ∷ b'h' ∷ 1 ∷ 187 ∷ 9 ∷ []; sent = [] }

abbrev further : Ends
further = record { incoming = 5 ∷ 0 ∷ (answer ++ 8 ∷ []); sent = [] }

-- a script's other connectors, which this one does not use
abbrev others : Others Ends ℕ
others = record {
  Error = Connector.Error;
  Resolver = Unit {0};
  QuicConnection = Unit {0};
  tcp = λ e r w. (ok 0, w);
  create_quic_connection = λ e r alpn w. (ok tt, w);
  quic = λ q w. (ok 0, w);
  tls = λ e io w. (ok io, w);
  http = λ e io w. (ok io, w);
  simplex = λ e c io w. (ok io, w);
  socks5_error = λ x. x;
}

abbrev ask : Text → ConnectRequest → Option ℕ → Exec (ConnectError Connector.Error) Ends ℕ
ask f r cache =
    through coded rune pipe ends copied pipe.read_exact pipe.read_u8 pipe.read_u16 pipe.write_all
      others (λ x. x) 1 r
