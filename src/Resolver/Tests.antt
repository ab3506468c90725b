-- ===== src/Resolver/Tests.antt =====
-- The lookups of a name that has an address of each family.
use dandelion.Prelude.{[], ◌∷◌, none, some, ◌≡◌, refl}
use dandelion.Prelude.Exec.{ok}
use dandelion.Net.{v4, v6}
use dandelion.Resolver.System.{DnsLookup, lookup_ipv4}

abbrev both : DnsLookup
both = record {
  Error = Unit {0};
  lookup_host = λ _. ok [];
  getaddrinfo = λ _ _. ok (some (v6 (1 ∷ [])) ∷ none ∷ some (v4 (2 ∷ [])) ∷ []);
}

lookup_ipv4_test : lookup_ipv4 both [] ≡ ok ((2 ∷ []) ∷ [])
unfolding lookup_ipv4
lookup_ipv4_test = refl
