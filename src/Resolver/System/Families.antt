-- ===== src/Resolver/System/Families.antt =====
-- The addresses of one family.
use dandelion.Prelude.{List, [], ◌∷◌, map, Bool, true, false, ◌≡◌, refl, ap, ◌∙◌, if◌then◌else◌}
use dandelion.Prelude.Exec.{Result, ok, err}
use dandelion.Net.{Text, IpAddr, v4, v6}
use dandelion.Resolver.System.{
  DnsLookup, inet, inet6, on_ok, succeeded, v4_of, v6_of, lookup, lookup_ipv4, lookup_ipv6,
}

abbrev pub keep : (IpAddr → Bool) → List IpAddr → List IpAddr
keep p [] = []
keep p (ip ∷ ips) = if p ip then ip ∷ keep p ips else keep p ips

abbrev pub is_v4 : IpAddr → Bool
is_v4 (v4 _) = true
is_v4 (v6 _) = false

abbrev pub is_v6 : IpAddr → Bool
is_v6 (v6 _) = true
is_v6 (v4 _) = false

map-v4_of : (ips : List IpAddr) → map v4 (v4_of ips) ≡ keep is_v4 ips
map-v4_of [] = refl
map-v4_of (v4 o ∷ ips) = ap (◌∷◌ (v4 o)) (map-v4_of ips)
map-v4_of (v6 o ∷ ips) = map-v4_of ips

map-v6_of : (ips : List IpAddr) → map v6 (v6_of ips) ≡ keep is_v6 ips
map-v6_of [] = refl
map-v6_of (v6 o ∷ ips) = ap (◌∷◌ (v6 o)) (map-v6_of ips)
map-v6_of (v4 o ∷ ips) = map-v6_of ips

on_ok-on_ok :
    {E A B C : Type 0} (f : B → C) (g : A → B) (h : A → C) (r : Result E A)
    → ((a : A) → f (g a) ≡ h a)
    → on_ok f (on_ok g r) ≡ on_ok h r
on_ok-on_ok f g h (ok a) same = ap ok (same a)
on_ok-on_ok f g h (err e) same = refl

-- The addresses that the two lookups by family give are those of that family among the entries that
-- the system found for it and that did not fail, in their order, whatever other addresses the system
-- gives; an error of the system is passed on.
pub map-lookup :
    (d : DnsLookup) (name : Text)
    → (on_ok (map v4) (lookup_ipv4 d name)
        ≡ on_ok (λ found. keep is_v4 (succeeded found)) (d.getaddrinfo name inet))
      × (on_ok (map v6) (lookup_ipv6 d name)
          ≡ on_ok (λ found. keep is_v6 (succeeded found)) (d.getaddrinfo name inet6))
unfolding lookup_ipv4 lookup_ipv6 lookup
map-lookup d name = (
  on_ok-on_ok (map v4) v4_of (keep is_v4) (lookup d name inet) map-v4_of
      ∙ on_ok-on_ok (keep is_v4) succeeded (λ found. keep is_v4 (succeeded found))
          (d.getaddrinfo name inet) (λ _. refl),
  on_ok-on_ok (map v6) v6_of (keep is_v6) (lookup d name inet6) map-v6_of
      ∙ on_ok-on_ok (keep is_v6) succeeded (λ found. keep is_v6 (succeeded found))
          (d.getaddrinfo name inet6) (λ _. refl),
)
