-- ===== src/Simplex/Server/Tests.antt =====
-- The handler on requests whose headers are a function from names.
use dandelion.Prelude.{[], ◌∷◌, Option, none, some, true, false, ◌≡◌, refl, eq_text, if◌then◌else◌}
use dandelion.Prelude.Exec.{ok}
use dandelion.Net.{Text, AddrText}
use dandelion.Net.Decimal.{parse_u16}
use dandelion.Endpoint.{domain, from_str}
use dandelion.Simplex.Server.{Config, Requests, Env, endpoint_header_key, hide_error_handler, fresh}
use dandelion.Simplex.Server.Authorised.{IsGuarded, run, run-IsGuarded}

abbrev headers : Requests
headers = record {
  Request = Text → Option Text;
  path = λ r. b'/' ∷ [];
  header = λ n r. r n;
  to_str = λ v. some v;
  is_upgrade_request = λ r. true;
  key = λ r. some (b'k' ∷ []);
  version = λ r. some (b'1' ∷ b'3' ∷ []);
  derive_accept_key = λ k. k;
}

abbrev no_addresses : AddrText
no_addresses = record {
  parse_ip = λ _. none;
  ip_to_string = λ _. [];
  parse_addr = λ _. none;
  addr_to_string = λ _. [];
}

abbrev config : Config
config = record { host = b'h' ∷ []; path = b'/' ∷ []; secret_header = (b'n' ∷ [], b's' ∷ []) }

-- A request with the secret that is given, for port 80 of the host `h`.
abbrev with_secret : Text → Text → Option Text
with_secret secret name =
    if eq_text name (b'n' ∷ [])
    then some secret
    else if eq_text name endpoint_header_key
    then some (b'h' ∷ b':' ∷ b'8' ∷ b'0' ∷ [])
    else none

abbrev env : Env
env = record { receiver_lives = true; is_done = true }

run-IsGuarded_example : IsGuarded no_addresses headers config (
    run no_addresses headers config
      ((env, with_secret (b'x' ∷ [])) ∷ (env, with_secret (b's' ∷ [])) ∷ [])
      fresh)
run-IsGuarded_example =
    run-IsGuarded no_addresses headers config
      ((env, with_secret (b'x' ∷ [])) ∷ (env, with_secret (b's' ∷ [])) ∷ [])

-- The wrong secret gets the page, the right one the upgrade and the endpoint.
hidden_test :
    hide_error_handler no_addresses headers config env (with_secret (b'x' ∷ [])) fresh
    ≡ (ok none, fresh)
unfolding hide_error_handler
hidden_test = refl

upgraded_test :
    hide_error_handler no_addresses headers config env (with_secret (b's' ∷ [])) fresh
    ≡ (ok (some (b'k' ∷ [])), record { is_present = false; signalled = domain (b'h' ∷ []) 80 ∷ [] })
unfolding hide_error_handler from_str parse_u16
upgraded_test = refl
