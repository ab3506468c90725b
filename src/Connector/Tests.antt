-- ===== src/Connector/Tests.antt =====
-- Two connectors, the second of which waits and is faster; the connection of TLS.
use dandelion.Prelude.{ℕ, ◌+◌, List, [], ◌∷◌, Option, some, ltb, if◌then◌else◌, ◌≡◌, refl}
use dandelion.Prelude.Exec.{Result, ok}
use dandelion.Net.{Text}
use dandelion.Net.Coded.{coded}
use dandelion.Endpoint.{Endpoint, domain, hostname}
use dandelion.Connector.{NativeTls, tls_connect}
use dandelion.Connector.Race.{Future, panicked, at, connect}

abbrev site : Endpoint
site = domain (b'a' ∷ []) 443

abbrev earlier :
    Option (ℕ × Result (Unit {0}) ℕ)
    → Option (ℕ × Result (Unit {0}) ℕ)
    → Option (ℕ × Result (Unit {0}) ℕ)
earlier (some (m, ok a)) (some (n, ok b)) = if ltb n m then some (n, ok b) else some (m, ok a)
earlier (some (m, ok a)) _ = some (m, ok a)
earlier _ o = o

abbrev first : Future (Unit {0}) ℕ → List (Future (Unit {0}) ℕ) → Future (Unit {0}) ℕ
first f [] now = f now
first f (g ∷ gs) now = earlier (f now) (first g gs now)

abbrev after : ℕ → ℕ → Endpoint → Future (Unit {0}) ℕ
after delay a e now = some (now + delay, ok a)

race_test :
    connect first (λ d now. now + d) ((0, after 90 1) ∷ (20, after 30 2) ∷ []) site 100
    ≡ at 150 (ok 2)
unfolding connect
race_test = refl

-- A race of no connectors panics.
no_connector_test : connect first (λ d now. now + d) [] site 100 ≡ panicked
unfolding connect
no_connector_test = refl

-- The stream is the name that the server is to prove.
abbrev tls : NativeTls ℕ
tls = record {
  World = Unit {0};
  Error = Unit {0};
  TlsConnector = ℕ;
  TlsStream = Text;
  new = ok 1;
  connect = λ c name io w. (ok name, w);
}

tls_test : tls_connect coded tls site 5 tt ≡ (ok (b'a' ∷ []), tt)
unfolding tls_connect hostname
tls_test = refl
