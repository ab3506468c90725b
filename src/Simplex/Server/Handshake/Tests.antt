-- ===== src/Simplex/Server/Handshake/Tests.antt =====
-- Handshakes over requests that are a path, a secret and whether they hold a key.
use dandelion.Prelude.{
  [], ◌∷◌, none, some, Bool, true, false, ◌≡◌, ◌↔◌, refl, All, eq_text, if◌then◌else◌,
}
use dandelion.Prelude.Exec.{ok}
use dandelion.Net.{Text}
use dandelion.Net.Coded.{coded}
use dandelion.Net.Decimal.{parse_u16}
use dandelion.Endpoint.{Endpoint, domain, from_str}
use dandelion.Simplex.Server.{
  Config, Requests, endpoint_header_key, endpoint_of, fresh, hide_error_handler,
}
use dandelion.Simplex.Server.Authorised.{IsAuthorised}
use dandelion.Simplex.Server.Handshake.{handshake, connection, crashed, closed}
use dandelion.Simplex.Server.Handshake.Steps.{IsRefused}
use dandelion.Simplex.Server.Handshake.First.{IsFirst, handshake-IsFirst}
use dandelion.Simplex.Server.Handshake.Outcomes.{IsComplete, connection-crashed}

abbrev requests : Requests
requests = record {
  Request = Text × Bool;
  path = λ r. b'/' ∷ [];
  header = λ n r.
      if eq_text n endpoint_header_key then some (b'h' ∷ b':' ∷ b'8' ∷ b'0' ∷ []) else some r.0;
  to_str = λ v. some v;
  is_upgrade_request = λ r. true;
  key = λ r. if r.1 then some (b'k' ∷ []) else none;
  version = λ r. some (b'1' ∷ b'3' ∷ []);
  derive_accept_key = λ k. k;
}

abbrev config : Config
config = record { host = b'h' ∷ []; path = b'/' ∷ []; secret_header = (b'n' ∷ [], b's' ∷ []) }

abbrev bad : Text × Bool
bad = (b'x' ∷ [], true)

abbrev keyless : Text × Bool
keyless = (b's' ∷ [], false)

abbrev good : Text × Bool
good = (b's' ∷ [], true)

abbrev site : Endpoint
site = domain (b'h' ∷ []) 80

secret-IsAuthorised :
    (has_key : Bool) → IsAuthorised coded requests config (b's' ∷ [], has_key) site
unfolding endpoint_of from_str parse_u16
secret-IsAuthorised has_key = record {
  of_path = refl;
  of_secret = refl;
  of_upgrade = refl;
  of_endpoint = refl;
}

handshake-IsFirst_example :
    (handshake coded requests config (bad ∷ good ∷ []) ≡ ok (site, good, fresh, []))
    ↔ IsFirst coded requests config (bad ∷ good ∷ []) (site, good, fresh, [])
handshake-IsFirst_example =
    handshake-IsFirst coded requests config (bad ∷ good ∷ []) (site, good, fresh, [])

connection-crashed_example :
    (connection coded requests config (keyless ∷ good ∷ []) fresh ≡ crashed) ↔ (
      (¬ IsComplete coded requests config keyless)
      × (¬ All (IsRefused coded requests config) (good ∷ [])))
connection-crashed_example =
    connection-crashed coded requests config keyless (good ∷ []) site (secret-IsAuthorised false)

crashed_test : connection coded requests config (keyless ∷ good ∷ []) fresh ≡ crashed
unfolding connection from_str parse_u16 hide_error_handler
crashed_test = refl

closed_test : connection coded requests config (keyless ∷ bad ∷ []) fresh ≡ closed
unfolding connection from_str parse_u16 hide_error_handler
closed_test = refl

found_test : handshake coded requests config (bad ∷ good ∷ []) ≡ ok (site, good, fresh, [])
unfolding handshake from_str parse_u16 hide_error_handler
found_test = refl
