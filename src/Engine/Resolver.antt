-- ===== src/Engine/Resolver.antt =====
-- core/src/config/engine/resolver.rs: the resolvers that a script makes, and their lookups, which
-- give it texts.
pub mod Texts
mod Tests
use dandelion.Prelude.{ℕ, List, [], ◌∷◌, Option, none, some, map}
use dandelion.Prelude.Exec.{Result, ok, err}
use dandelion.Net.{Text, IpAddr, v4, v6, SocketAddr, AddrText}
use dandelion.Resolver.System.{DnsLookup, on_ok, support_raw}
use dandelion.Resolver.System
use dandelion.Resolver.Trait.{Resolver, default_lookup_raw}
use dandelion.Resolver.Hickory
use dandelion.Resolver.Hickory.{Options}

pub data UdpError : Type 0 where
  bad_value bad_address : UdpError

-- `SystemResolver` behind the trait
abbrev pub system : {M : Type 0} → DnsLookup → Resolver M
system d = record {
  Error = d.Error;
  lookup_ip = System.lookup_ip d;
  lookup_ipv4 = System.lookup_ipv4 d;
  lookup_ipv6 = System.lookup_ipv6 d;
  support_raw = support_raw;
  lookup_raw = default_lookup_raw;
}

unfoldable pub create_system_resolver : {M : Type 0} → DnsLookup → Resolver M
create_system_resolver d = system d

abbrev pub put_first : {E A : Type 0} → A → Result E (List A) → Result E (List A)
put_first a (ok rest) = ok (a ∷ rest)
put_first a (err e) = err e

module _ (t : AddrText) where
  -- the addresses, up to the first that is no text or no socket address
  unfoldable pub parse_all : List (Option Text) → Result UdpError (List SocketAddr)
  parse_all [] = ok []
  parse_all (none ∷ addrs) = err bad_value
  parse_all (some addr ∷ addrs) =
      let rest = parse_all addrs in
      elim (t.parse_addr addr) [ none ↦ err bad_address | some a ↦ put_first a rest ]

  -- a name server is its address, asked by UDP
  unfoldable pub create_udp_resolver :
      List SocketAddr → List (Option Text) → ℕ → Result UdpError (Options SocketAddr)
  unfolding parse_all
  create_udp_resolver default_servers addrs timeout =
      on_ok (λ servers. Hickory.new default_servers servers timeout) (parse_all addrs)

  -- `ResolverWrapper`
  module _ {M : Type 0} (this : Resolver M) where
    unfoldable pub lookup : Text → Result this.Error (List Text)
    lookup hostname = on_ok (map t.ip_to_string) (this.lookup_ip hostname)

    unfoldable pub lookup_ipv4 : Text → Result this.Error (List Text)
    lookup_ipv4 hostname = on_ok (map (λ o. t.ip_to_string (v4 o))) (this.lookup_ipv4 hostname)

    unfoldable pub lookup_ipv6 : Text → Result this.Error (List Text)
    lookup_ipv6 hostname = on_ok (map (λ o. t.ip_to_string (v6 o))) (this.lookup_ipv6 hostname)
