-- ===== src/Connector.antt =====
-- core/src/core/connector: tls.rs, simplex.rs, quic.rs and speed.rs, which hand a connection on to
-- another part or to a crate.
pub mod Race
mod Tests
use dandelion.Prelude.{ℕ, List, [], ◌∷◌, map}
use dandelion.Prelude.Exec.{Result, ok, err, Exec, ◌>>=◌, pure, bail}
use dandelion.Io.{lift, map_err}
use dandelion.Net.{Text, AddrText, IpAddr}
use dandelion.Endpoint.{Endpoint, hostname}
use dandelion.Simplex.Server.{Config}
use dandelion.Quic.{Quinn}
use dandelion.Quic

-- `tls::connect`: native_tls makes a connector, which is told the name that the server is to prove.
pub record NativeTls (Io : Type 0) : Type 1 where
  pub World : Type 0
  pub Error : Type 0
  pub TlsConnector : Type 0
  pub TlsStream : Type 0
  pub new : Result Error TlsConnector
  pub connect : TlsConnector → Text → Io → Exec Error World TlsStream

pub data TlsError (E : Type 0) : Type 0 where
  no_connector : E → TlsError E
  not_secure : Endpoint → E → TlsError E

unfoldable pub tls_connect :
    {Io : Type 0} (t : AddrText) (tls : NativeTls Io)
    → Endpoint
    → Io
    → Exec (TlsError tls.Error) tls.World tls.TlsStream
tls_connect t tls endpoint nexthop = do
  connector ← λ w. (map_err no_connector tls.new, w)
  lift (not_secure endpoint) (tls.connect connector (hostname t endpoint) nexthop)

-- `simplex::connect`, over the client's
unfoldable pub simplex_connect :
    {Io Stream E W : Type 0}
    → (Io → Endpoint → Config → Exec E W Stream)
    → Endpoint
    → Config
    → Io
    → Exec E W Stream
simplex_connect client_connect endpoint config nexthop = do
  s ← client_connect nexthop endpoint config
  pure s

pub record QuicConnection (q : Quinn) : Type 0 where
  pub inner : q.Connection

-- `quic::create_quic_connection`
unfoldable pub create :
    {R : Type 0} (q : Quinn)
    → Endpoint
    → (Text → Result R (List IpAddr))
    → List Text
    → Exec (Quic.Error q.Error R) q.World (QuicConnection q)
create q server resolver apln_protocols = do
  inner ← Quic.create_quic_connection q server resolver apln_protocols
  pure (record { inner = inner })
