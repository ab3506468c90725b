-- ===== src/Http/Tests.antt =====
-- A header map as a function from names, and the theorems on the acceptor at inputs of their own.
use dandelion.Prelude.{
  ℕ, List, [], ◌∷◌, Option, none, some, Bool, true, false, ◌≡◌, ◌≢◌, refl, arith, eq_text,
  eq_text_sound, eq_text_refl, All, ap, inl, inr, Bool-cases, if◌then◌else◌,
}
use dandelion.Net.{Text, AddrText}
use dandelion.Net.Decimal.{parse_u16}
use dandelion.Prelude.Exec.{ok, err}
use dandelion.Endpoint.{domain, from_str}
use dandelion.Http.Request.{
  Name, host, connection, proxy_connection, proxy_authenticate, proxy_authorization, other,
  HttpTypes, Request, parse_path, transform_proxy_request,
}
use dandelion.Http.Request.Headers.{IsHeaderMap, expected, transform_proxy_request-get}
use dandelion.Http.Handler.{Env, failed, panicked, other_host, handler, start}
use dandelion.Http.Handshake.{handshake, no_request, done_of, serve}
use dandelion.Http.Handshake.Announces.{IsOf, handshake-run}
use dandelion.Http.Handshake.Serves.{serve-ne_panicked}
use dandelion.Http.Handler.Faithful.{IsFaithful, run, run-IsFaithful}

abbrev same_name : Name → Name → Bool
same_name host host = true
same_name connection connection = true
same_name proxy_connection proxy_connection = true
same_name proxy_authenticate proxy_authenticate = true
same_name proxy_authorization proxy_authorization = true
same_name (other a) (other b) = eq_text a b
same_name _ _ = false

-- A URI is its host and its path.
abbrev http : HttpTypes
http = record {
  Uri = Text × Text;
  Value = Text;
  HeaderMap = Name → Option Text;
  parse_uri = λ path. some ([], path);
  uri_to_string = λ u. u.0;
  host_of = λ u. some u.0;
  path_and_query = λ u. some u.1;
  parse_value = λ v. some v;
  get = λ n m. m n;
  insert = λ n v m k. if same_name k n then some v else m k;
  remove = λ n m k. if same_name k n then none else m k;
}

same_name_self : (n : Name) → same_name n n ≡ true
same_name_self host = refl
same_name_self connection = refl
same_name_self proxy_connection = refl
same_name_self proxy_authenticate = refl
same_name_self proxy_authorization = refl
same_name_self (other a) = eq_text_refl a

other_sound : (a : Text) (n : Name) → same_name (other a) n ≡ true → other a ≡ n
other_sound a (other b) h = ap other (eq_text_sound a b h)
other_sound a host h = absurd (ground arith)
other_sound a connection h = absurd (ground arith)
other_sound a proxy_connection h = absurd (ground arith)
other_sound a proxy_authenticate h = absurd (ground arith)
other_sound a proxy_authorization h = absurd (ground arith)

same_name_sound : (n k : Name) → same_name n k ≡ true → n ≡ k
same_name_sound (other a) k h = other_sound a k h
same_name_sound host k h = ground arith
same_name_sound connection k h = ground arith
same_name_sound proxy_connection k h = ground arith
same_name_sound proxy_authenticate k h = ground arith
same_name_sound proxy_authorization k h = ground arith

if-ne : {A : Type 0} (n k : Name) (x y : A) → n ≢ k → (if same_name n k then x else y) ≡ y
if-ne n k x y ne = elim (Bool-cases (same_name n k)) [
  | inl same ↦ absurd (ne (same_name_sound n k same))
  | inr differs ↦ rw differs refl
]

if_self : {A : Type 0} (n : Name) (x y : A) → (if same_name n n then x else y) ≡ x
if_self n x y = rw (same_name_self n) refl

http-IsHeaderMap : IsHeaderMap http
http-IsHeaderMap = record {
  get-insert = λ n v m. if_self n (some v) (m n);
  get-insert-ne = λ n k v m ne. if-ne n k (some v) (m n) ne;
  get-remove = λ n m. if_self n none (m n);
  get-remove-ne = λ n k m ne. if-ne n k none (m n) ne;
}

-- A request for the path `/` of the host `h`, with a header for the proxy.
abbrev asked : Name → Option Text
asked proxy_connection = some (b'c' ∷ [])
asked _ = none

abbrev request_for : Text → Request http
request_for name = record { is_connect = false; uri = (name, b'/' ∷ []); headers = asked }

abbrev sent_request : Request http
sent_request = record {
  is_connect = false;
  uri = ([], b'/' ∷ []);
  headers = λ n.
      if same_name n connection
      then some (b'c' ∷ [])
      else if same_name n proxy_connection
      then none
      else if same_name n proxy_authorization
      then none
      else if same_name n proxy_authenticate
      then none
      else if same_name n host
      then some (b'h' ∷ [])
      else asked n;
}

transform_proxy_request-get_example :
    (parse_path http (some (b'/' ∷ [])) ≡ some ([], b'/' ∷ []))
    × (sent_request.headers connection
        ≡ expected http http-IsHeaderMap connection (request_for (b'h' ∷ [])))
unfolding transform_proxy_request
transform_proxy_request-get_example =
    transform_proxy_request-get http http-IsHeaderMap (request_for (b'h' ∷ [])) sent_request
      connection refl

-- `std` that reads no text as an address.
abbrev no_addresses : AddrText
no_addresses = record {
  parse_ip = λ _. none;
  ip_to_string = λ _. [];
  parse_addr = λ _. none;
  addr_to_string = λ _. [];
}

abbrev env : Env ℕ ℕ
env = record { receiver_lives = true; done = some (some 1); is_ready = true; answer = some 200 }

run-IsFaithful_example : IsFaithful no_addresses http (
    run no_addresses http
      ((env, request_for (b'h' ∷ []))
        ∷ (env, request_for (b'h' ∷ []))
        ∷ (env, request_for (b'x' ∷ []))
        ∷ [])
      start)
run-IsFaithful_example = run-IsFaithful no_addresses http (
    (env, request_for (b'h' ∷ []))
    ∷ (env, request_for (b'h' ∷ []))
    ∷ (env, request_for (b'x' ∷ []))
    ∷ [])

-- A CONNECT request; the request behind it would not find its signal.
abbrev tunnel_for : Text → Request http
tunnel_for name = record { is_connect = true; uri = (name, []); headers = asked }

serve-ne_panicked_example :
    All
      (λ x. x ≢ panicked)
      (serve no_addresses http
        ((env, request_for (b'h' ∷ [])) ∷ (env, request_for (b'h' ∷ [])) ∷ [])
        start)
unfolding done_of handler start from_str parse_u16 transform_proxy_request
serve-ne_panicked_example =
    serve-ne_panicked no_addresses http env (request_for (b'h' ∷ []))
      ((env, request_for (b'h' ∷ [])) ∷ []) 1 refl refl (inr (200, refl), (inl refl, tt))

abbrev three : List (Env ℕ ℕ × Request http)
three =
    (env, request_for (b'h' ∷ []))
    ∷ (env, request_for (b'h' ∷ []))
    ∷ (env, request_for (b'x' ∷ []))
    ∷ []

handshake-run_example :
    ((run no_addresses http three start).signalled ≡ (false, domain (b'h' ∷ []) 80) ∷ [])
    × All
        (IsOf no_addresses http (false, domain (b'h' ∷ []) 80))
        (run no_addresses http three start).forwarded
unfolding handshake start from_str parse_u16 handler
handshake-run_example =
    handshake-run no_addresses http env (request_for (b'h' ∷ []))
      ((env, request_for (b'h' ∷ [])) ∷ (env, request_for (b'x' ∷ [])) ∷ [])
      (false, domain (b'h' ∷ []) 80) refl refl

-- The endpoints of a CONNECT request and of another one.
endpoint_test :
    (handshake no_addresses http (some (tunnel_for (b'h' ∷ b':' ∷ b'9' ∷ [])))
      ≡ ok (true, domain (b'h' ∷ []) 9))
    × (handshake no_addresses http (some (request_for (b'h' ∷ [])))
        ≡ ok (false, domain (b'h' ∷ []) 80))
    × (handshake no_addresses http none ≡ err no_request)
unfolding handshake start from_str parse_u16 handler
endpoint_test = (refl, refl, refl)

-- The request for another host is refused, and that for the same one is not.
refused_test :
    (handler no_addresses http env
      (request_for (b'x' ∷ []))
      (handler no_addresses http env (request_for (b'h' ∷ [])) start).1).0
    ≡ failed other_host
unfolding handler start from_str parse_u16 transform_proxy_request
refused_test = refl
