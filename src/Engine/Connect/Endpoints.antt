-- ===== src/Engine/Connect/Endpoints.antt =====
-- A script hands the endpoint of its request on as a text.
use dandelion.Prelude.{◌<◌, ◌^◌, ◌≡◌, refl, ap, ◌∙◌, some, none, Option, arith, true, ◌↔◌}
use dandelion.Io.{lift}
use dandelion.Net.{Text, AddrText, ReadsBack, IpAddr}
use dandelion.Endpoint.{Endpoint, addr, domain, port, hostname}
use dandelion.Endpoint.RoundTrip.{canonical, from_str-to_string}
use dandelion.Engine.Connect.{
  Connectors, ConnectRequest, connector, request_endpoint, new_socks5, hostname_as_ip, ip_of,
  printed, is_some, hostname_is_ip, request_hostname,
}

module _ (t : AddrText) (c : Connectors) (r : ConnectRequest) where
  -- the text of the request's endpoint, handed to `new_socks5`
  pub new_socks5-request_endpoint :
      (w : c.World) (io : c.Io)
      → ReadsBack t
      → port r.endpoint < 2 ^ 16
      → new_socks5 t c (request_endpoint t r) io w
        ≡ lift connector (c.socks5 (canonical t r.endpoint) io) w
  unfolding request_endpoint new_socks5
  new_socks5-request_endpoint w io b h = rw (from_str-to_string t r.endpoint b h) refl

module _ (t : AddrText) (b : ReadsBack t) where
  address_lem :
      (s : Text) (ip : IpAddr)
      → s ≡ t.ip_to_string ip
      → (x : IpAddr) × (t.parse_ip s ≡ some x) × (s ≡ t.ip_to_string x)
  address_lem s ip e = (ip, ap t.parse_ip e ∙ b.parse_ip-to_string ip, e)

  printed_lem :
      (s : Text) (o : Option IpAddr)
      → printed t o ≡ some s
      → (x : IpAddr) × (t.parse_ip s ≡ some x) × (s ≡ t.ip_to_string x)
  printed_lem s none h = absurd (ground arith)
  printed_lem s (some ip) h = address_lem s ip (ground arith)

  ip_of_lem :
      (s : Text) (e : Endpoint)
      → ip_of t e ≡ some s
      → (x : IpAddr) × (t.parse_ip s ≡ some x) × (s ≡ t.ip_to_string x)
  ip_of_lem s (addr a) h = address_lem s a.ip (ground arith)
  ip_of_lem s (domain d p) h = printed_lem s (t.parse_ip d) h

  -- With std's addresses reading back what they print: what `hostname_as_ip` gives, for an endpoint
  -- that is an address or a domain that is the text of one, reads as an address and is its text.
  hostname_as_ip-parse_ip :
      (r : ConnectRequest) (s : Text)
      → hostname_as_ip t r ≡ some s
      → (ip : IpAddr) × (t.parse_ip s ≡ some ip) × (s ≡ t.ip_to_string ip)
  unfolding hostname_as_ip
  hostname_as_ip-parse_ip r s h = ip_of_lem s r.endpoint h

  is_some-printed :
      (o : Option IpAddr) → (is_some t (printed t o) ≡ true) ↔ ((ip : IpAddr) × (o ≡ some ip))
  is_some-printed none = (λ h. absurd (cc), λ (ip, e). absurd (cc))
  is_some-printed (some ip) = (λ h. (ip, refl), λ h. refl)

  -- With std's addresses reading back what they print: a script is told that the host of its request
  -- is an address exactly where the host name that it is told reads as one.
  hostname_is_ip_iff :
      (r : ConnectRequest)
      → (hostname_is_ip t r ≡ true)
        ↔ ((ip : IpAddr) × (t.parse_ip (request_hostname t r) ≡ some ip))
  unfolding hostname_is_ip request_hostname hostname
  hostname_is_ip_iff r = by_endpoint r.endpoint
    where
      by_endpoint :
          (e : Endpoint)
          → (is_some t (ip_of t e) ≡ true) ↔ ((ip : IpAddr) × (t.parse_ip (hostname t e) ≡ some ip))
      by_endpoint (addr a) = (λ h. (a.ip, b.parse_ip-to_string a.ip), λ h. refl)
      by_endpoint (domain d p) = is_some-printed (t.parse_ip d)
