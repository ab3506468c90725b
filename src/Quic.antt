-- ===== src/Quic.antt =====
-- core/src/core/quic (and core/src/core/connector/quic.rs): connections over QUIC. The protocol is the
-- crate quinn's, and the race of attempts that of the crate futures, both parameters.
pub mod Attempts
pub mod Stream
mod Tests
use dandelion.Prelude.{ℕ, List, [], ◌∷◌, map, replicate}
use dandelion.Prelude.Exec.{Result, ok, err, Exec, ◌>>=◌, bail}
use dandelion.Net.{Text, IpAddr, v4, v6, SocketAddr}
use dandelion.Io.{map_err, lift}
use dandelion.Endpoint.{Endpoint, addr, domain}

-- An attempt: the address that the client binds, the server's, and the name in its certificate.
pub record Attempt (Config : Type 0) : Type 0 where
  pub local : SocketAddr
  pub config : Config
  pub remote : SocketAddr
  pub host : Text

-- `crypto_config` verifies by the platform and offers the protocols. `select_ok` runs some attempts;
-- it is documented to panic where there is none. A connection opens streams that run both ways.
pub record Quinn : Type 1 where
  pub World : Type 0
  pub Error : Type 0
  pub Config : Type 0
  pub Connection : Type 0
  pub SendStream : Type 0
  pub RecvStream : Type 0
  pub crypto_config : List Text → Result Error Config
  pub select_ok : Attempt Config → List (Attempt Config) → Exec Error World Connection
  pub open_bi : Connection → Exec Error World (SendStream × RecvStream)

pub data Error (E R : Type 0) : Type 0 where
  no_domain : SocketAddr → Error E R
  quinn : E → Error E R
  resolver : R → Error E R
  panicked : Error E R

abbrev pub new_addr : IpAddr → ℕ → SocketAddr
new_addr ip port = record { ip = ip; port = port; scope_id = 0 }

-- `UNSPECIFIED` of the address's family
abbrev pub unspecified : IpAddr → IpAddr
unspecified (v4 _) = v4 (replicate 4 0)
unspecified (v6 _) = v6 (replicate 16 0)

-- the closure of `select_ok`
unfoldable pub attempt : {Config : Type 0} → Config → Text → ℕ → IpAddr → Attempt Config
attempt config host port ip = record {
  local = new_addr (unspecified ip) 0;
  config = config;
  remote = new_addr ip port;
  host = host;
}

-- `QuicStream`
pub record QuicStream (q : Quinn) : Type 0 where
  pub send : q.SendStream
  pub recv : q.RecvStream

module _ (q : Quinn) where
  module _ {R : Type 0} where
    abbrev pub select : List (Attempt q.Config) → Exec (Error q.Error R) q.World q.Connection
    select [] = bail panicked
    select (a ∷ rest) = lift quinn (q.select_ok a rest)

    -- what `?` makes of a result
    abbrev pub try :
        {A E : Type 0} → (E → Error q.Error R) → Result E A → Exec (Error q.Error R) q.World A
    try f r w = (map_err f r, w)

    unfoldable pub create_quic_connection :
        Endpoint
        → (Text → Result R (List IpAddr))
        → List Text
        → Exec (Error q.Error R) q.World q.Connection
    unfolding attempt
    create_quic_connection (addr a) lookup_ip alpn_protocols = bail (no_domain a)
    create_quic_connection (domain host port) lookup_ip alpn_protocols = do
      addrs ← try resolver (lookup_ip host)
      config ← try quinn (q.crypto_config alpn_protocols)
      select (map (attempt config host port) addrs)

  -- `QuicStream::new`
  abbrev pub new : q.SendStream → q.RecvStream → QuicStream q
  new send recv = record { send = send; recv = recv }

  abbrev pub opened :
      Result q.Error (q.SendStream × q.RecvStream) × q.World
      → Result q.Error (QuicStream q) × q.World
  opened (ok (send, recv), w) = (ok (new send recv), w)
  opened (err e, w) = (err e, w)

  unfoldable pub connect : q.Connection → Exec q.Error q.World (QuicStream q)
  connect connection w = opened (q.open_bi connection w)
