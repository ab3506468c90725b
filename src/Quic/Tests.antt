-- ===== src/Quic/Tests.antt =====
-- A connection over a race whose last attempt wins.
use dandelion.Prelude.{ℕ, List, [], ◌∷◌, ◌≡◌, ◌≢◌, refl}
use dandelion.Prelude.Exec.{ok, err}
use dandelion.Net.{Text, v4, v6, SocketAddr}
use dandelion.Endpoint.{domain}
use dandelion.Resolver.Hickory.{Client, lookup_ip}
use dandelion.Quic.{Quinn, Attempt, panicked, create_quic_connection}
use dandelion.Quic.Attempts.{create_quic_connection-ne_panicked}

abbrev last : Attempt ℕ → List (Attempt ℕ) → SocketAddr
last a [] = a.remote
last a (b ∷ rest) = last b rest

abbrev quinn : Quinn
quinn = record {
  World = Unit {0};
  Error = Unit {0};
  Config = ℕ;
  Connection = SocketAddr;
  SendStream = ℕ;
  RecvStream = ℕ;
  crypto_config = λ alpn. ok 1;
  select_ok = λ a rest w. (ok (last a rest), w);
  open_bi = λ c w. (ok (1, 2), w);
}

abbrev client : Client
client = record {
  Error = Unit {0};
  RecordType = ℕ;
  Record = Text;
  lookup_ip = λ name. ok (v4 [] ∷ v6 [] ∷ []);
  ipv4_lookup = λ name. ok [];
  ipv6_lookup = λ name. ok [];
  lookup = λ name kind. ok [];
}

create_quic_connection-ne_panicked_example :
    (create_quic_connection quinn (domain (b'a' ∷ []) 443) (lookup_ip client) [] tt).0
    ≢ err panicked
create_quic_connection-ne_panicked_example =
    create_quic_connection-ne_panicked quinn client (domain (b'a' ∷ []) 443) [] tt

last_test :
    (create_quic_connection quinn (domain (b'a' ∷ []) 443) (lookup_ip client) [] tt).0
    ≡ ok (record { ip = v6 []; port = 443; scope_id = 0 })
unfolding create_quic_connection lookup_ip
last_test = refl

-- A resolver that gives no address and no error makes it panic.
empty_test :
    (create_quic_connection quinn {R = Unit {0}} (domain (b'a' ∷ []) 443) (λ name. ok []) [] tt).0
    ≡ err panicked
unfolding create_quic_connection
empty_test = refl
