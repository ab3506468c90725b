-- ===== src/Engine/Serve/Onward.antt =====
-- A SOCKS5 client whose script connects through a further SOCKS5 proxy.
mod Tests
use dandelion.Prelude.{ℕ, List, sym}
use dandelion.Prelude.Exec.{err, Exec, ◌>>=◌, pure}
use dandelion.Net.{Text, AddrText}
use dandelion.Io.{Io, IoError, Wire, Talks, lift}
use dandelion.Endpoint.{Endpoint}
use dandelion.Engine.Connect.{
  Connectors, ConnectRequest, ConnectError, request_endpoint, new_socks5,
}
use dandelion.Simplex.Server.{Config}
use dandelion.Engine.Config.{Rune, Engine}
use dandelion.Socks5.Connector

-- The connectors of a script but for that to a SOCKS5 proxy, over what they change and connections.
pub record Others (World Remote : Type 0) : Type 1 where
  pub Error : Type 0
  pub Resolver : Type 0
  pub QuicConnection : Type 0
  pub tcp : Endpoint → Resolver → Exec Error World Remote
  pub create_quic_connection : Endpoint → Resolver → List Text → Exec Error World QuicConnection
  pub quic : QuicConnection → Exec Error World Remote
  pub tls : Endpoint → Remote → Exec Error World Remote
  pub http : Endpoint → Remote → Exec Error World Remote
  pub simplex : Endpoint → Config → Remote → Exec Error World Remote
  -- what becomes of an error of the connector to a SOCKS5 proxy
  pub socks5_error : Connector.Error → Error

module _ (t : AddrText) (rune : Rune) (io : Io) (w : Wire io) {C Remote : Type 0}
    (copy_bidirectional : Remote → Exec C (io.State × rune.World) (ℕ × ℕ))
    (read_exact : ℕ → Exec IoError rune.World Text) (read_u8 : Exec IoError rune.World ℕ)
    (read_u16 : Exec IoError rune.World ℕ)
    (write_all : Text → Exec IoError rune.World (Unit {0})) where
  -- the connection to the further proxy, which is all that the script changes
  abbrev pub up : Io
  up = record {
    State = rune.World;
    read_exact = read_exact;
    read_u8 = read_u8;
    read_u16 = read_u16;
    write_all = write_all;
  }

  -- The connectors of a script over that connection: `connector::socks5` is the client, and gives
  -- the connection back; `o` has the others.
  abbrev pub connectors : Others rune.World Remote → Connectors
  connectors o = record {
    World = rune.World;
    Error = o.Error;
    Io = Remote;
    Resolver = o.Resolver;
    QuicConnection = o.QuicConnection;
    tcp = o.tcp;
    create_quic_connection = o.create_quic_connection;
    quic = o.quic;
    tls = o.tls;
    http = o.http;
    simplex = o.simplex;
    socks5 = λ e io. lift o.socks5_error (Connector.connect t up e) >>= λ _. pure io;
  }

  -- What a script does that hands the text of its request's endpoint to `new_socks5`, over that
  -- connection.
  abbrev pub through :
      (o : Others rune.World Remote)
      → (ConnectError o.Error → rune.Error)
      → Remote
      → ConnectRequest
      → Exec rune.Error rune.World Remote
  through o f remote r = lift f (new_socks5 t (connectors o) (request_endpoint t r) remote)
