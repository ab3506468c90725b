-- ===== src/Engine/Resolver/Texts.antt =====
-- The texts that a script gets of the name servers' resolver.
use dandelion.Prelude.{List, [], ◌∷◌, some, map, ◌≡◌, ◌≢◌, refl, ap, subst, arith}
use dandelion.Prelude.Exec.{Result, ok, err}
use dandelion.Net.{Text, IpAddr, v4, v6, AddrText, ReadsBack}
use dandelion.Resolver.System.{on_ok}
use dandelion.Resolver.Hickory.{Client, Error, found, hickory, lookup_ip}
use dandelion.Resolver.Hickory
use dandelion.Engine.Resolver.{lookup, lookup_ipv4, lookup_ipv6}

-- The lookups of a script: of any address, or of one family.
pub data Kind : Type 0 where
  any ipv4 ipv6 : Kind

module _ (t : AddrText) (c : Client) (Rest : Type 0) (hostname : Text) where
  abbrev pub lookup_of : Kind → Result (Error c.Error) (List Text)
  lookup_of any = lookup t (hickory c {Rest = Rest}) hostname
  lookup_of ipv4 = lookup_ipv4 t (hickory c {Rest = Rest}) hostname
  lookup_of ipv6 = lookup_ipv6 t (hickory c {Rest = Rest}) hostname

  -- what the name servers say
  abbrev pub asked : Kind → Result c.Error (List IpAddr)
  asked any = c.lookup_ip hostname
  asked ipv4 = on_ok (map v4) (c.ipv4_lookup hostname)
  asked ipv6 = on_ok (map v6) (c.ipv6_lookup hostname)

  map-id : (ips : List IpAddr) → map (λ ip. ip) ips ≡ ips
  map-id [] = refl
  map-id (ip ∷ ips) = ap (◌∷◌ ip) (map-id ips)

  on_ok-id : (r : Result c.Error (List IpAddr)) → on_ok (map (λ ip. ip)) r ≡ r
  on_ok-id (ok ips) = ap ok (map-id ips)
  on_ok-id (err e) = refl

  module _ (reads : ReadsBack t) where
    map-printed :
        {A : Type 0} (f : A → IpAddr) (found_all : List A)
        → map t.parse_ip (map (λ a. t.ip_to_string (f a)) found_all)
          ≡ map (λ ip. some ip) (map f found_all)
    map-printed f [] = refl
    map-printed f (a ∷ rest) = rw (reads.parse_ip-to_string (f a), map-printed f rest) refl

    -- what a text lookup says of the client's
    abbrev Says : Result c.Error (List IpAddr) → List Text → Type 0
    Says r texts =
        (ips : List IpAddr) × (r ≡ ok ips)
        × (texts ≢ [])
        × (map t.parse_ip texts ≡ map (λ ip. some ip) ips)

    printed :
        {A : Type 0} (f : A → IpAddr) (r : Result c.Error (List A)) (texts : List Text)
        → on_ok (map (λ a. t.ip_to_string (f a))) (found r) ≡ ok texts
        → Says (on_ok (map f) r) texts
    printed f (ok []) texts e = absurd (cc)
    printed f (ok (a ∷ rest)) texts e =
        let same : map (λ x. t.ip_to_string (f x)) (a ∷ rest) ≡ texts = cc in
        (
          map f (a ∷ rest),
          refl,
          λ none. absurd (ground (arith, same, none)),
          rw (← same) (map-printed f (a ∷ rest)),
        )
    printed f (err x) texts e = absurd (cc)

    -- With `std`'s addresses reading back what they print, a lookup of a script over name servers
    -- that succeeds gives some texts, and they read back as the addresses that the servers gave, in
    -- their order: where the servers give no address, the lookup fails.
    pub lookup_of-parse_ip :
        (k : Kind) (texts : List Text)
        → lookup_of k ≡ ok texts
        → (ips : List IpAddr) × (asked k ≡ ok ips)
          × (texts ≢ [])
          × (map t.parse_ip texts ≡ map (λ ip. some ip) ips)
    unfolding lookup lookup_ipv4 lookup_ipv6 lookup_ip Hickory.lookup_ipv4 Hickory.lookup_ipv6
    lookup_of-parse_ip any texts e =
        subst (λ r. Says r texts) (on_ok-id (c.lookup_ip hostname))
          (printed (λ ip. ip) (c.lookup_ip hostname) texts e)
    lookup_of-parse_ip ipv4 texts e = printed v4 (c.ipv4_lookup hostname) texts e
    lookup_of-parse_ip ipv6 texts e = printed v6 (c.ipv6_lookup hostname) texts e
