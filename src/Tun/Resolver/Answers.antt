-- ===== src/Tun/Resolver/Answers.antt =====
-- What the fake resolver answers.
use dandelion.Prelude.{Option, none, some, ◌≡◌, refl, sym, ap, ◌∙◌}
use mathlib.Core.Option
use dandelion.Net.{Text, IpAddr, v4, v6, AddrText}
use dandelion.Tun.Lru.{Lru, IsLru}
use dandelion.Tun.Pool
use dandelion.Tun.Pool.{Pool}
use dandelion.Tun.Pool.Invariant.{IsConsistent}
use dandelion.Tun.Pool.Laws.{get_reverse-get}
use dandelion.Tun.Resolver.{
  Octets, FakeDnsResolver, lookup, only_v4, only_v6, lookup_ipv4, lookup_ipv6, lookup_ptr,
}

only_v4-map : (o : Option Octets) → only_v4 (Option.map v4 o) ≡ o
only_v4-map (some ip) = refl
only_v4-map none = refl

only_v6-map : (o : Option Octets) → only_v6 (Option.map v6 o) ≡ o
only_v6-map (some ip) = refl
only_v6-map none = refl

module _ (t : AddrText) (dk : Discrete Text) (lru : Lru Octets Text) where
  -- A name that is the text of an address is answered by that address where it is of the family
  -- that is asked for, and by nothing otherwise, and no pool changes.
  lookup-ip :
      (name : Text) (ip : IpAddr) (r : FakeDnsResolver t dk lru)
      → t.parse_ip name ≡ some ip
      → (lookup_ipv4 t dk lru name r ≡ (only_v4 (some ip), r))
        × (lookup_ipv6 t dk lru name r ≡ (only_v6 (some ip), r))
  unfolding lookup_ipv4 lookup_ipv6
  lookup-ip name ip r e = (rw (e, lookup) refl, rw (e, lookup) refl)

  lookup_ipv4-pool :
      (name : Text) (r : FakeDnsResolver t dk lru)
      → t.parse_ip name ≡ none
      → lookup_ipv4 t dk lru name r ≡ (
        (Pool.get dk lru name r.ipv4_mapping).0,
        record r { ipv4_mapping = (Pool.get dk lru name r.ipv4_mapping).1 },
      )
  unfolding lookup_ipv4
  lookup_ipv4-pool name r e = rw (e, lookup, only_v4-map) refl

  lookup_ipv6-pool :
      (name : Text) (r : FakeDnsResolver t dk lru)
      → t.parse_ip name ≡ none
      → lookup_ipv6 t dk lru name r ≡ (
        (Pool.get dk lru name r.ipv6_mapping).0,
        record r { ipv6_mapping = (Pool.get dk lru name r.ipv6_mapping).1 },
      )
  unfolding lookup_ipv6
  lookup_ipv6-pool name r e = rw (e, lookup, only_v6-map) refl

  module _ (dv : Discrete Octets) (il : IsLru dv lru) where
    -- For a name that is not the text of an address, over a cache that behaves as the crate
    -- documents and where the IPv4 pool is consistent: the IPv4 address that the name is answered by
    -- leads back to the name at the next reverse lookup, and the IPv6 pool does not change.
    pub lookup_ptr-lookup_ipv4 :
        (name : Text) (ip : Octets) (r : FakeDnsResolver t dk lru)
        → t.parse_ip name ≡ none
        → IsConsistent dk dv lru il r.ipv4_mapping
        → (lookup_ipv4 t dk lru name r).0 ≡ some ip
        → ((lookup_ptr t dk lru (v4 ip) (lookup_ipv4 t dk lru name r).1).0 ≡ some name)
          × ((lookup_ipv4 t dk lru name r).1.ipv6_mapping ≡ r.ipv6_mapping)
    unfolding lookup_ptr
    lookup_ptr-lookup_ipv4 name ip r e c a =
        let whole = lookup_ipv4-pool name r e in
        let given : (Pool.get dk lru name r.ipv4_mapping).0 ≡ some ip =
          sym (ap (λ x. x.0) whole) ∙ a in
        (
          ap (λ x. (Pool.get_reverse dk lru ip x.1.ipv4_mapping).0) whole
              ∙ (get_reverse-get dk dv lru il name r.ipv4_mapping ip c given).1,
          ap (λ x. x.1.ipv6_mapping) whole,
        )

    -- For a name that is not the text of an address, over a cache that behaves as the crate
    -- documents and where the IPv6 pool is consistent: the IPv6 address that the name is answered by
    -- leads back to the name at the next reverse lookup, and the IPv4 pool does not change.
    lookup_ptr-lookup_ipv6 :
        (name : Text) (ip : Octets) (r : FakeDnsResolver t dk lru)
        → t.parse_ip name ≡ none
        → IsConsistent dk dv lru il r.ipv6_mapping
        → (lookup_ipv6 t dk lru name r).0 ≡ some ip
        → ((lookup_ptr t dk lru (v6 ip) (lookup_ipv6 t dk lru name r).1).0 ≡ some name)
          × ((lookup_ipv6 t dk lru name r).1.ipv4_mapping ≡ r.ipv4_mapping)
    unfolding lookup_ptr
    lookup_ptr-lookup_ipv6 name ip r e c a =
        let whole = lookup_ipv6-pool name r e in
        let given : (Pool.get dk lru name r.ipv6_mapping).0 ≡ some ip =
          sym (ap (λ x. x.0) whole) ∙ a in
        (
          ap (λ x. (Pool.get_reverse dk lru ip x.1.ipv6_mapping).0) whole
              ∙ (get_reverse-get dk dv lru il name r.ipv6_mapping ip c given).1,
          ap (λ x. x.1.ipv4_mapping) whole,
        )
