-- ===== src/Engine/Resolver/Tests.antt =====
-- Lookups over name servers that know one name.
use dandelion.Prelude.{
  ℕ, List, [], ◌∷◌, none, some, true, false, map, ◌≡◌, ◌≢◌, refl, if◌then◌else◌, eq_text,
}
use dandelion.Prelude.Exec.{ok, err}
use dandelion.Net.{Text, IpAddr, v4, v6}
use dandelion.Net.Coded.{coded, coded-ReadsBack}
use dandelion.Resolver.Hickory.{Client, not_found, lookup_raw, lookup_ip}
use dandelion.Engine.Resolver.{lookup, create_udp_resolver, bad_address}
use dandelion.Engine.Resolver.Texts.{any, asked, lookup_of-parse_ip}

abbrev client : Client
client = record {
  Error = Unit {0};
  RecordType = ℕ;
  Record = Text;
  lookup_ip =
      λ name. if eq_text name (b'a' ∷ []) then ok (v4 (1 ∷ []) ∷ v6 (2 ∷ []) ∷ []) else ok [];
  ipv4_lookup = λ name. ok ((1 ∷ []) ∷ []);
  ipv6_lookup = λ name. ok [];
  lookup = λ name kind. ok (name ∷ []);
}

abbrev texts : List Text
texts = (0 ∷ 1 ∷ []) ∷ (1 ∷ 2 ∷ []) ∷ []

lookup_of-parse_ip_example :
    (ips : List IpAddr) × (asked coded client (Unit {0}) (b'a' ∷ []) any ≡ ok ips)
    × (texts ≢ [])
    × (map coded.parse_ip texts ≡ map (λ ip. some ip) ips)
unfolding lookup lookup_ip
lookup_of-parse_ip_example =
    lookup_of-parse_ip coded client (Unit {0}) (b'a' ∷ []) coded-ReadsBack any texts refl

-- No address is an error.
empty_test : lookup_ip client (b'b' ∷ []) ≡ err not_found
unfolding lookup_ip
empty_test = refl

-- Only the first query is asked, and the answers go behind those that are there.
raw_test :
    lookup_raw client (record {
      queries = (b'a' ∷ [], 1) ∷ (b'b' ∷ [], 1) ∷ [];
      answers = [] ∷ [];
      is_response = false;
      rest = tt {0};
    })
    ≡ ok (record {
      queries = (b'a' ∷ [], 1) ∷ (b'b' ∷ [], 1) ∷ [];
      answers = [] ∷ (b'a' ∷ []) ∷ [];
      is_response = true;
      rest = tt {0};
    })
unfolding lookup_raw
raw_test = refl

udp_test : create_udp_resolver coded [] (some (b'x' ∷ []) ∷ none ∷ []) 100 ≡ err bad_address
unfolding create_udp_resolver
udp_test = refl
