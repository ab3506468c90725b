-- ===== src/Resolver/System.antt =====
-- core/src/core/resolver/system.rs: the resolver of the operating system. `getaddrinfo` and
-- `lookup_host` are those of the crate dns_lookup, a parameter, with the failures of the blocking
-- task among their errors.
pub mod Families
use dandelion.Prelude.{List, [], ◌∷◌, Option, none, some, Bool, false}
use dandelion.Prelude.Exec.{Result, ok, err}
use dandelion.Net.{Text, IpAddr, v4, v6}

pub data AddrFamily : Type 0 where
  inet inet6 : AddrFamily

-- `getaddrinfo` gives, where it succeeds, the addresses of the entries, `none` for one that failed.
pub record DnsLookup : Type 1 where
  pub Error : Type 0
  pub lookup_host : Text → Result Error (List IpAddr)
  pub getaddrinfo : Text → AddrFamily → Result Error (List (Option IpAddr))

abbrev pub on_ok : {E A B : Type 0} → (A → B) → Result E A → Result E B
on_ok f (ok a) = ok (f a)
on_ok f (err e) = err e

-- `filter_map(|r| r.ok())`
abbrev pub succeeded : List (Option IpAddr) → List IpAddr
succeeded [] = []
succeeded (some ip ∷ rest) = ip ∷ succeeded rest
succeeded (none ∷ rest) = succeeded rest

abbrev pub v4_of : List IpAddr → List Text
v4_of [] = []
v4_of (v4 o ∷ ips) = o ∷ v4_of ips
v4_of (v6 _ ∷ ips) = v4_of ips

abbrev pub v6_of : List IpAddr → List Text
v6_of [] = []
v6_of (v6 o ∷ ips) = o ∷ v6_of ips
v6_of (v4 _ ∷ ips) = v6_of ips

module _ (d : DnsLookup) where
  unfoldable pub lookup_ip : Text → Result d.Error (List IpAddr)
  lookup_ip name = d.lookup_host name

  unfoldable pub lookup : Text → AddrFamily → Result d.Error (List IpAddr)
  lookup name family = on_ok succeeded (d.getaddrinfo name family)

  unfoldable pub lookup_ipv4 : Text → Result d.Error (List Text)
  unfolding lookup
  lookup_ipv4 name = on_ok v4_of (lookup name inet)

  unfoldable pub lookup_ipv6 : Text → Result d.Error (List Text)
  unfolding lookup
  lookup_ipv6 name = on_ok v6_of (lookup name inet6)

abbrev pub support_raw : Bool
support_raw = false
