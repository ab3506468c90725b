-- ===== src/Engine/Connect.antt =====
-- core/src/config/engine/connect.rs: the request for a connection that a script is given, and the
-- functions that it makes connections with; core/src/core/connector/block.rs.
pub mod Endpoints
use dandelion.Prelude.{ℕ, List, Option, none, some, Bool, true, false}
use dandelion.Prelude.Exec.{Result, ok, err, Exec, ◌>>=◌, pure, bail, ok_or}
use dandelion.Io.{lift, map_err}
use dandelion.Net.{Text, AddrText, IpAddr}
use dandelion.Endpoint.{Endpoint, addr, domain, from_str, hostname, port, to_string}
use dandelion.Simplex.Server.{Config}

-- The connectors as the interface that the functions use, over what they change, `World`.
pub record Connectors : Type 1 where
  pub World : Type 0
  pub Error : Type 0
  pub Io : Type 0
  pub Resolver : Type 0
  pub QuicConnection : Type 0
  pub tcp : Endpoint → Resolver → Exec Error World Io
  pub create_quic_connection : Endpoint → Resolver → List Text → Exec Error World QuicConnection
  pub quic : QuicConnection → Exec Error World Io
  pub tls : Endpoint → Io → Exec Error World Io
  pub http : Endpoint → Io → Exec Error World Io
  pub simplex : Endpoint → Config → Io → Exec Error World Io
  pub socks5 : Endpoint → Io → Exec Error World Io

pub data ConnectError (E : Type 0) : Type 0 where
  bad_endpoint : dandelion.Endpoint.Error → ConnectError E
  connector : E → ConnectError E
  bad_value : ConnectError E
  -- `connector::block`
  blocked : Endpoint → ConnectError E

pub record ConnectRequest : Type 0 where
  pub endpoint : Endpoint

pub record SimplexConfig : Type 0 where
  pub host : Text
  pub path : Text
  pub header_name : Text
  pub header_value : Text

unfoldable pub request_port : ConnectRequest → ℕ
request_port r = port r.endpoint

module _ (t : AddrText) where
  unfoldable pub request_endpoint : ConnectRequest → Text
  request_endpoint r = to_string t r.endpoint

  unfoldable pub request_hostname : ConnectRequest → Text
  request_hostname r = hostname t r.endpoint

  -- an address, or a domain that is the text of one, printed
  abbrev pub printed : Option IpAddr → Option Text
  printed none = none
  printed (some ip) = some (t.ip_to_string ip)

  abbrev pub ip_of : Endpoint → Option Text
  ip_of (addr a) = some (t.ip_to_string a.ip)
  ip_of (domain d _) = printed (t.parse_ip d)

  unfoldable pub hostname_as_ip : ConnectRequest → Option Text
  hostname_as_ip r = ip_of r.endpoint

  abbrev pub is_some : Option Text → Bool
  is_some (some _) = true
  is_some none = false

  unfoldable pub hostname_is_ip : ConnectRequest → Bool
  unfolding hostname_as_ip
  hostname_is_ip r = is_some (hostname_as_ip r)

module _ (t : AddrText) (c : Connectors) where
  open c use {World, Error, Io, Resolver, QuicConnection}

  -- `endpoint.parse()?`
  abbrev pub parse : Text → Exec (ConnectError Error) World Endpoint
  parse s w = (map_err bad_endpoint (from_str t s), w)

  unfoldable pub new_tcp : Text → Resolver → Exec (ConnectError Error) World Io
  new_tcp s resolver = do e ← parse s; lift connector (c.tcp e resolver)

  -- `alpn` is what `rune::from_value` makes of the script's value, `none` where it fails.
  unfoldable pub new_quic_connection :
      Text → Resolver → Option (List Text) → Exec (ConnectError Error) World QuicConnection
  new_quic_connection s resolver alpn = do
    alpn_vec ← ok_or alpn bad_value
    e ← parse s
    lift connector (c.create_quic_connection e resolver alpn_vec)

  unfoldable pub new_quic : QuicConnection → Exec (ConnectError Error) World Io
  new_quic connection = lift connector (c.quic connection)

  unfoldable pub new_tls : Text → Io → Exec (ConnectError Error) World Io
  new_tls s nexthop = do e ← parse s; lift connector (c.tls e nexthop)

  unfoldable pub new_block : Text → Exec (ConnectError Error) World Io
  new_block s = do e ← parse s; bail (blocked e)

  unfoldable pub new_http : Text → Io → Exec (ConnectError Error) World Io
  new_http s nexthop = do e ← parse s; lift connector (c.http e nexthop)

  unfoldable pub new_simplex : Text → SimplexConfig → Io → Exec (ConnectError Error) World Io
  new_simplex s config nexthop = do
    e ← parse s
    lift connector (
        c.simplex e
          (record {
            host = config.host;
            path = config.path;
            secret_header = (config.header_name, config.header_value);
          })
          nexthop)

  unfoldable pub new_socks5 : Text → Io → Exec (ConnectError Error) World Io
  new_socks5 s nexthop = do e ← parse s; lift connector (c.socks5 e nexthop)
