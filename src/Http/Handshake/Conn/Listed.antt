-- ===== src/Http/Handshake/Conn/Listed.antt =====
-- A server connection whose requests are a list, for tests.
use dandelion.Prelude.{ℕ, List, [], ◌∷◌, ◌++◌, Option, none, some, ◌≡◌, refl, sym, ap}
use dandelion.Prelude.Exec.{Result, ok}
use dandelion.Net.{Text}
use dandelion.Http.Request.{HttpTypes, Request}
use dandelion.Http.Handler.{Reply, empty}
use dandelion.Http.Handshake.Conn.{Server, Replies}

abbrev pub http : HttpTypes
http = record {
  Uri = Text;
  Value = Text;
  HeaderMap = Unit {0};
  parse_uri = λ path. some path;
  uri_to_string = λ u. u;
  host_of = λ u. some u;
  path_and_query = λ u. some u;
  parse_value = λ v. some v;
  get = λ n m. none;
  insert = λ n v m. m;
  remove = λ n m. m;
}

-- The requests to come, and the replies that were sent.
abbrev pub Client : Type 0
Client = List (Request http) × List (Reply (Unit {0}))

abbrev pub next_request : Client → Option (Request http) × Client
next_request ([], sent) = (none, ([], sent))
next_request (r ∷ rs, sent) = (some r, (rs, sent))

abbrev pub server : Server http ℕ
server = record {
  State = Client;
  Error = Unit {0};
  read_request = next_request;
  finish = λ reply c. (ok tt, (c.0, c.1 ++ reply ∷ []));
  client_handshake = λ c. (ok 1, c);
  spawn = λ sender r c. c;
}

sent-next_request : (c : Client) → (next_request c).1.1 ≡ c.1
sent-next_request ([], sent) = refl
sent-next_request (r ∷ rs, sent) = refl

some_inj :
    (a b : Client) → ◌≡◌ {A = Result (Unit {0}) (Unit {0}) × Client} (ok tt, a) (ok tt, b) → a ≡ b
some_inj a b e = ap (λ z. z.1) e

pub server-Replies : Replies server (λ c. c.1) (λ c. Unit {0})
server-Replies = record {
  sent-read_request = sent-next_request;
  sent-finish = λ c c' ran. ap (λ z. z.1) (sym (some_inj (c.0, c.1 ++ empty ∷ []) c' ran));
  finish-open = λ c o. ((c.0, c.1 ++ empty ∷ []), refl);
}
