-- ===== src/Engine/Tun.antt =====
-- core/src/config/engine/tun.rs: the fake addresses as a script gets them, and the script's decision
-- for the name of a DNS query. The language of the scripts is a parameter.
use dandelion.Prelude.{Option, none, some}
use dandelion.Prelude.Exec.{Result, ok, err, Exec, ◌>>=◌, ok_or}
use dandelion.Net.{Text, v4, v6, AddrText}
use dandelion.Io.{map_err}
use dandelion.Tun.Lru.{Lru}
use dandelion.Tun.Resolver.{Octets, FakeDnsResolver}
use dandelion.Tun.Resolver
use dandelion.Engine.Config.{Rune}

pub data FakeError : Type 0 where
  no_ipv4 no_ipv6 : FakeError

-- an answer of the fake resolver's, printed
abbrev pub printed :
    {S : Type 0} → (Octets → Text) → FakeError → Option Octets × S → Result FakeError Text × S
printed f e (some ip, s) = (ok (f ip), s)
printed f e (none, s) = (err e, s)

module _ (t : AddrText) (dk : Discrete Text) (lru : Lru Octets Text) where
  -- `FakeResolver`; the resolver is behind the lock
  unfoldable pub lookup_ipv4 : Text → Exec FakeError (FakeDnsResolver t dk lru) Text
  lookup_ipv4 name r =
      printed (λ ip. t.ip_to_string (v4 ip)) no_ipv4 (Resolver.lookup_ipv4 t dk lru name r)

  unfoldable pub lookup_ipv6 : Text → Exec FakeError (FakeDnsResolver t dk lru) Text
  lookup_ipv6 name r =
      printed (λ ip. t.ip_to_string (v6 ip)) no_ipv6 (Resolver.lookup_ipv6 t dk lru name r)

-- `R` is a resolver of scripts.
pub data ResolveStrategy (R : Type 0) : Type 0 where
  resolver : R → ResolveStrategy R
  ip : Text → ResolveStrategy R
  nx_domain : ResolveStrategy R

pub record DnsServer (rune : Rune) (Fallback Fake : Type 0) : Type 0 where
  pub fallback_server : Fallback
  pub fake_resolver : Fake
  pub dns_handler : Text
  pub cache : rune.Object

pub data HandleError (E : Type 0) : Type 0 where
  rune_error : E → HandleError E
  not_cloneable : HandleError E

-- `call` is `vm.async_call` of the function of a name, and `as_strategy` is `rune::from_value`.
abbrev pub strategy_of :
    {E A R : Type 0}
    → (A → Result E (ResolveStrategy R))
    → Result E A
    → Result (HandleError E) (ResolveStrategy R)
strategy_of as_strategy (err e) = err (rune_error e)
strategy_of as_strategy (ok value) = map_err rune_error (as_strategy value)

module _ (rune : Rune) {R Fallback Fake : Type 0} where
  unfoldable pub handle_message :
      (Text → Text → rune.Object → Exec rune.Error rune.World rune.Value)
      → (rune.Value → Result rune.Error (ResolveStrategy R))
      → DnsServer rune Fallback Fake
      → Text
      → Exec (HandleError rune.Error) rune.World (ResolveStrategy R)
  handle_message call as_strategy server domain = do
    cache ← ok_or (rune.try_clone server.cache) not_cloneable
    λ w. (
      strategy_of as_strategy (call server.dns_handler domain cache w).0,
      (call server.dns_handler domain cache w).1,
    )
