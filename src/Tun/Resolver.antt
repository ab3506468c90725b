-- ===== src/Tun/Resolver.antt =====
-- `FakeDnsResolver` of core/src/core/tun/resolver.rs: one pool for IPv4 and one for IPv6.
pub mod Answers
use dandelion.Prelude.{ℕ, List, Option, none, some}
use mathlib.Core.Option
use dandelion.Net.{Text, IpAddr, v4, v6, AddrText}
use dandelion.Tun.Lru.{Lru}
use dandelion.Tun.Pool
use dandelion.Tun.Pool.{Pool}

-- `Ipv4Addr` and `Ipv6Addr`, by their octets.
abbrev pub Octets : Type 0
Octets = List ℕ

pub data IpType : Type 0 where
  ipv4 ipv6 : IpType

-- the arms of the two `and_then`
abbrev pub only_v4 : Option IpAddr → Option Octets
only_v4 (some (v4 ip)) = some ip
only_v4 (some (v6 ip)) = none
only_v4 none = none

abbrev pub only_v6 : Option IpAddr → Option Octets
only_v6 (some (v6 ip)) = some ip
only_v6 (some (v4 ip)) = none
only_v6 none = none

module _ (t : AddrText) (dk : Discrete Text) (lru : Lru Octets Text) where
  pub record FakeDnsResolver : Type 0 where
    pub ipv4_mapping : Pool Text Octets lru
    pub ipv6_mapping : Pool Text Octets lru

  unfoldable pub new : List Octets → List Octets → FakeDnsResolver
  new ipv4_pool ipv6_pool = record {
    ipv4_mapping = Pool.new dk lru ipv4_pool;
    ipv6_mapping = Pool.new dk lru ipv6_pool;
  }

  -- the pools, where the name is no address
  unfoldable pub lookup_pool : Text → IpType → FakeDnsResolver → Option IpAddr × FakeDnsResolver
  lookup_pool name ipv4 r =
      let (ip, m) = Pool.get dk lru name r.ipv4_mapping in
      (Option.map v4 ip, record r { ipv4_mapping = m })
  lookup_pool name ipv6 r =
      let (ip, m) = Pool.get dk lru name r.ipv6_mapping in
      (Option.map v6 ip, record r { ipv6_mapping = m })

  unfoldable pub lookup : Text → IpType → FakeDnsResolver → Option IpAddr × FakeDnsResolver
  unfolding lookup_pool
  lookup name query_type r = elim (t.parse_ip name) [
    | some ip ↦ (some ip, r)
    | none ↦ lookup_pool name query_type r
  ]

  unfoldable pub lookup_ipv4 : Text → FakeDnsResolver → Option Octets × FakeDnsResolver
  unfolding lookup
  lookup_ipv4 name r = let (ip, r') = lookup name ipv4 r in (only_v4 ip, r')

  unfoldable pub lookup_ipv6 : Text → FakeDnsResolver → Option Octets × FakeDnsResolver
  unfolding lookup
  lookup_ipv6 name r = let (ip, r') = lookup name ipv6 r in (only_v6 ip, r')

  unfoldable pub lookup_ptr : IpAddr → FakeDnsResolver → Option Text × FakeDnsResolver
  lookup_ptr (v4 a) r =
      let (name, m) = Pool.get_reverse dk lru a r.ipv4_mapping in
      (name, record r { ipv4_mapping = m })
  lookup_ptr (v6 a) r =
      let (name, m) = Pool.get_reverse dk lru a r.ipv6_mapping in
      (name, record r { ipv6_mapping = m })
