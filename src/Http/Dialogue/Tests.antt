-- ===== src/Http/Dialogue/Tests.antt =====
-- A client that asks for "a:80", and a server that reads the target up to the next space.
use dandelion.Prelude.{
  [], ◌∷◌, ◌++◌, Option, some, true, ◌==◌, if◌then◌else◌, ◌≡◌, ◌≢◌, refl, arith, All, drop,
}
use dandelion.Prelude.Exec.{ok, Exec}
use dandelion.Net.{Text}
use dandelion.Net.Coded.{coded, coded-ReadsBack}
use dandelion.Endpoint.{Endpoint, domain, port, to_string}
use dandelion.Net.Decimal.{u16_to_string}
use dandelion.Endpoint.RoundTrip.{canonical}
use dandelion.Io.Pipe.{pipe, ends, pipe-IsByteStream}
use dandelion.Io.Pipe
use dandelion.Io.ReadBuf.{read_four, read_four-IsReadBuf}
use dandelion.Http.Request.{Request}
use dandelion.Http.Handler.{empty}
use dandelion.Http.Connector.{request_text, connect}
use dandelion.Http.Connector.Sample.{parse, head, head-IsAccepting, arrived}
use dandelion.Http.Handshake.Conn.{ConnError, handshake_on}
use dandelion.Http.Handshake.Conn.Listed.{http, Client, server, server-Replies}
use dandelion.Http.Connector.Accepted.{CameWithEnd}
use dandelion.Http.Dialogue.{connect_head, ReadsConnect, connect-handshake_on}

until_space : Text → Text
until_space [] = []
until_space (c ∷ cs) = if c == b' ' then [] else c ∷ until_space cs

abbrev NoSpace : Text → Type 0
NoSpace = All (λ c. c ≢ b' ')

until_space-append : (a rest : Text) → NoSpace a → until_space (a ++ b' ' ∷ rest) ≡ a
unfolding until_space
until_space-append [] rest h = refl
until_space-append (c ∷ a) rest h = ground (arith, until_space-append a rest h.1)

unfoldable read_head : Text → Option (Request http)
unfolding until_space
read_head s = some (record { is_connect = true; uri = until_space (drop 8 s); headers = tt })

read_head-ReadsConnect : ReadsConnect http read_head NoSpace
unfolding read_head
read_head-ReadsConnect = record {
  read_head-connect = λ target host a b. (
    record {
      is_connect = true;
      uri = until_space (drop 8 (connect_head target host));
      headers = tt;
    },
    refl,
    refl,
    until_space-append target _ a,
  );
}

abbrev site : Endpoint
site = domain (b'a' ∷ []) 80

abbrev target : Text
target = b'a' ∷ b':' ∷ b'8' ∷ b'0' ∷ []

abbrev asked : Request http
asked = record { is_connect = true; uri = target; headers = tt }

connect-handshake_on_example :
    (c' : Pipe.Ends) × (lost : Text) × (s' : Client) × (fut : Exec
      (ConnError (Unit {0}))
      Client
      (Unit {0}))
    × (connect pipe read_four parse coded 6 site arrived ≡ (ok tt, c'))
    × (c'.sent ≡ request_text coded site)
    × (8 ∷ 9 ∷ [] ≡ lost ++ c'.incoming)
    × CameWithEnd pipe ends read_four parse (8 ∷ 9 ∷ []) lost c'
    × (handshake_on coded http server (asked ∷ [], []) ≡ (ok (canonical coded site, fut), ([], [])))
    × (fut ([], []) ≡ (ok tt, s'))
    × (s'.1 ≡ empty ∷ [])
unfolding read_head request_text to_string u16_to_string port
connect-handshake_on_example =
    connect-handshake_on coded http server (λ c. c.1) (λ c. Unit {0}) read_head NoSpace pipe ends
      read_four parse 6 site arrived (asked ∷ [], []) ([], []) head (8 ∷ 9 ∷ []) coded-ReadsBack
      (omega arith) read_head-ReadsConnect (ground arith) server-Replies read_four-IsReadBuf
      pipe-IsByteStream head-IsAccepting (λ h. absurd (ground arith)) tt refl (omega arith) refl tt
