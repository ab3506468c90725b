-- ===== src/Simplex/Tunnel.antt =====
-- The client of core/src/core/simplex/client.rs against the server of core/src/core/simplex/server.rs.
mod Tests
use dandelion.Prelude.{
  ℕ, ◌<◌, ◌^◌, List, [], ◌∷◌, ◌++◌, Option, none, some, true, false, ◌≡◌, ◌≢◌, subst, refl, sym, ap,
  ◌∙◌, arith, All, Bool, ◌==◌, ◌||◌,
}
use dandelion.Prelude.Exec.{ok}
use dandelion.Net.{Text, AddrText, ReadsBack}
use dandelion.Endpoint.{Endpoint, port, from_str, to_string}
use dandelion.Endpoint.RoundTrip.{canonical, from_str-to_string}
use dandelion.Simplex.Server.{Config, Requests, endpoint_header_key, fresh, endpoint_of, parsed}
use dandelion.Simplex.Server.Authorised.{IsAuthorised}
use dandelion.Simplex.Server.Handshake.{handshake, connection, upgraded}
use dandelion.Simplex.Server.Handshake.Steps.{IsRefused}
use dandelion.Simplex.Server.Handshake.First.{found_first}
use dandelion.Simplex.Server.Handshake.Outcomes.{connection-upgraded}
use dandelion.Simplex.Client.{Builder, client_request}

-- A path with no query and no fragment.
abbrev pub IsPlainPath : Text → Type 0
IsPlainPath p = (rest : Text) × (p ≡ b'/' ∷ rest) × All (λ c. (c ≢ b'?') × (c ≢ b'#')) rest

abbrev pub IsAscii : Text → Type 0
IsAscii s = All (λ c. c < 127) s

-- Blanks, which a parser of HTTP takes off both ends of a header's value (RFC 9110, section 5.5).
abbrev blank : ℕ → Bool
blank c = c == 32 || c == 9

abbrev blank_end : Text → Bool
blank_end [] = false
blank_end (c ∷ []) = blank c
blank_end (c ∷ d ∷ s) = blank_end (d ∷ s)

abbrev blank_start : Text → Bool
blank_start [] = false
blank_start (c ∷ s) = blank c

abbrev pub IsTrimmed : Text → Type 0
IsTrimmed s = (blank_start s ≡ false) × (blank_end s ≡ false)

-- A header that the handshake of a websocket does not use.
abbrev pub IsFree : (rq : Requests) → Builder rq → Text → Type 0
IsFree rq b m =
    (n v : Text) (r : rq.Request)
    → b.parse_name m ≡ some n
    → (rq.is_upgrade_request (b.insert n v r) ≡ rq.is_upgrade_request r)
      × (rq.key (b.insert n v r) ≡ rq.key r)
      × (rq.version (b.insert n v r) ≡ rq.version r)

-- What the crates document: a websocket's request asks for the upgrade, by version 13 and with a key;
-- `insert` replaces the header of that name; and a value reads back as the ASCII text it was made of.
pub record IsBuilder (rq : Requests) (b : Builder rq) : Type 0 where
  pub request_for_lem :
      (host p : Text) (r : rq.Request)
      → b.request_for host p ≡ some r
      → IsPlainPath p
      → (key : Text) × IsTrimmed key
        × (rq.path r ≡ p)
        × (rq.is_upgrade_request r ≡ true)
        × (rq.key r ≡ some key)
        × (rq.version r ≡ some (b'1' ∷ b'3' ∷ []))
  pub path-insert : (n v : Text) (r : rq.Request) → rq.path (b.insert n v r) ≡ rq.path r
  pub header-insert :
      (m n v : Text) (r : rq.Request)
      → b.parse_name m ≡ some n
      → rq.header m (b.insert n v r) ≡ some v
  pub header-insert_other :
      (m k n v : Text) (r : rq.Request)
      → b.parse_name m ≡ some k
      → k ≢ n
      → rq.header m (b.insert n v r) ≡ rq.header m r
  pub to_str-parse_value :
      (s v : Text) → b.parse_value s ≡ some v → IsAscii s → rq.to_str v ≡ some s

-- What the parser of a request makes of one that was sent: the values of the headers arrive, and are
-- the same where no blanks are at their ends.
pub record Arrives (rq : Requests) (arrived : rq.Request → rq.Request) : Type 0 where
  pub path-arrived : (r : rq.Request) → rq.path (arrived r) ≡ rq.path r
  pub header-arrived :
      (m v s : Text) (r : rq.Request)
      → rq.header m r ≡ some v
      → rq.to_str v ≡ some s
      → IsTrimmed s
      → (v' : Text) × (rq.header m (arrived r) ≡ some v') × (rq.to_str v' ≡ some s)
  pub is_upgrade_request-arrived :
      (r : rq.Request) → rq.is_upgrade_request r ≡ true → rq.is_upgrade_request (arrived r) ≡ true
  pub key-arrived :
      (k : Text) (r : rq.Request) → rq.key r ≡ some k → IsTrimmed k → rq.key (arrived r) ≡ some k
  pub version-arrived :
      (v : Text) (r : rq.Request)
      → rq.version r ≡ some v
      → IsTrimmed v
      → rq.version (arrived r) ≡ some v

module _ (t : AddrText) (rq : Requests) (b : Builder rq) (arrived : rq.Request → rq.Request) where
  client_request_lem :
      (e : Endpoint) (config : Config) (r : rq.Request)
      → client_request t rq b e config ≡ some r
      → (r0 : rq.Request) × (n : Text) × (v : Text) × (k : Text) × (x : Text) × (b.request_for
            config.host config.path
          ≡ some r0)
        × (b.parse_name config.secret_header.0 ≡ some n)
        × (b.parse_value config.secret_header.1 ≡ some v)
        × (b.parse_name endpoint_header_key ≡ some k)
        × (b.parse_value (to_string t e) ≡ some x)
        × (b.insert k x (b.insert n v r0) ≡ r)
  unfolding client_request
  client_request_lem e config r h = ground arith

  endpoint_of_lem :
      (r : rq.Request) (x s : Text) (e : Endpoint)
      → rq.header endpoint_header_key r ≡ some x
      → rq.to_str x ≡ some s
      → from_str t s ≡ ok e
      → endpoint_of t rq r ≡ some e
  unfolding endpoint_of
  endpoint_of_lem r x s e there text read = rw (there, text, parsed, read) refl

  module _ (laws : IsBuilder rq b) (net : Arrives rq arrived) (reads : ReadsBack t) (e : Endpoint)
      (config : Config) where
    client-IsAuthorised :
        (r : rq.Request)
        → client_request t rq b e config ≡ some r
        → port e < 2 ^ 16
        → IsPlainPath config.path
        → IsAscii config.secret_header.1
        → IsTrimmed config.secret_header.1
        → IsAscii (to_string t e)
        → IsTrimmed (to_string t e)
        → b.parse_name config.secret_header.0 ≢ b.parse_name endpoint_header_key
        → IsFree rq b config.secret_header.0
        → IsFree rq b endpoint_header_key
        → (key : Text) × (rq.key (arrived r) ≡ some key)
          × (rq.version (arrived r) ≡ some (b'1' ∷ b'3' ∷ []))
          × IsAuthorised t rq config (arrived r) (canonical t e)
    client-IsAuthorised r built bound plain secret trim text trim_text ne free free_target =
        let (r0, n, v, k, x, made, name, value, key_name, target, done) =
          client_request_lem e config r built in
        let (key, whole_key, p0, u0, k0, v0) =
          laws.request_for_lem config.host config.path r0 made plain in
        let r1 : rq.Request = b.insert n v r0 in
        let (u1, k1, v1) = free n v r0 name in
        let (u2, k2, v2) = free_target k x r1 key_name in
        let apart : n ≢ k = λ same. ne (name ∙ ap some same ∙ sym key_name) in
        let secret_there : rq.header config.secret_header.0 (b.insert k x r1) ≡ some v =
          laws.header-insert_other config.secret_header.0 n k x r1 name apart
          ∙ laws.header-insert config.secret_header.0 n v r0 name in
        let r2 : rq.Request = b.insert k x r1 in
        let (v', secret_came, secret_read) =
          net.header-arrived config.secret_header.0 v config.secret_header.1 r2 secret_there
            (laws.to_str-parse_value config.secret_header.1 v value secret) trim in
        let (x', target_came, target_read) =
          net.header-arrived endpoint_header_key x (to_string t e) r2
            (laws.header-insert endpoint_header_key k x r1 key_name)
            (laws.to_str-parse_value (to_string t e) x target text) trim_text in
        subst
          (λ z.
            (y : Text) × (rq.key (arrived z) ≡ some y)
            × (rq.version (arrived z) ≡ some (b'1' ∷ b'3' ∷ []))
            × IsAuthorised t rq config (arrived z) (canonical t e))
          done
          (
            key,
            net.key-arrived key r2 (k2 ∙ k1 ∙ k0) whole_key,
            net.version-arrived (b'1' ∷ b'3' ∷ []) r2 (v2 ∙ v1 ∙ v0) (refl, refl),
            record {
              of_path =
                  net.path-arrived r2 ∙ laws.path-insert k x r1 ∙ laws.path-insert n v r0 ∙ p0;
              of_secret = rw secret_came secret_read;
              of_upgrade = net.is_upgrade_request-arrived r2 (u2 ∙ u1 ∙ u0);
              of_endpoint =
                  endpoint_of_lem (arrived r2) x' (to_string t e) (canonical t e) target_came
                    target_read (from_str-to_string t e reads bound);
            },
          )

    -- With std's addresses reading back what they print, and requests that behave as the crates
    -- document: a request that the client builds for an endpoint whose port is a `u16`, with the
    -- configuration's plain path, an ASCII secret and an ASCII text of the endpoint, neither with a
    -- blank at an end, where the name of the secret's header is not that of the endpoint's and a
    -- websocket's handshake uses neither, ends, as it arrives, the handshake of a server of the same
    -- configuration, whatever refused requests came on the
    -- connection before: the server is to connect to that endpoint (a domain that is the text of a
    -- socket address comes out as that address), and then the request is upgraded.
    pub client_request-upgraded :
        (r : rq.Request) (before after : List rq.Request)
        → client_request t rq b e config ≡ some r
        → port e < 2 ^ 16
        → IsPlainPath config.path
        → IsAscii config.secret_header.1
        → IsTrimmed config.secret_header.1
        → IsAscii (to_string t e)
        → IsTrimmed (to_string t e)
        → b.parse_name config.secret_header.0 ≢ b.parse_name endpoint_header_key
        → IsFree rq b config.secret_header.0
        → IsFree rq b endpoint_header_key
        → All (IsRefused t rq config) before
        → (key : Text) × (handshake t rq config (before ++ arrived r ∷ after)
            ≡ ok (canonical t e, arrived r, fresh, after))
          × (connection t rq config (arrived r ∷ after) fresh ≡ upgraded (rq.derive_accept_key key))
    client_request-upgraded r before after built bound plain secret trim text trim_text ne free
          free_target refused =
        let (key, k, v, a) =
          client-IsAuthorised r built bound plain secret trim text trim_text ne free free_target in
        (
          key,
          found_first t rq config (before ++ arrived r ∷ after)
              (canonical t e, arrived r, fresh, after) (before, refl, refl, refused, a),
          connection-upgraded t rq config (arrived r) after (canonical t e) key a k v,
        )
