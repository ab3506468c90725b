-- ===== src/Socks5/Acceptor/Total.antt =====
-- The arm of the handshake that the source marks as unreachable.
use dandelion.Prelude.{◌≢◌, arith}
use dandelion.Prelude.Exec.{err}
use dandelion.Io.{Io}
use dandelion.Socks5.Acceptor.{panicked, handshake}

-- Whatever the connection does, the handshake never reaches its `unreachable!()`.
handshake-ne-panicked : (io : Io) (s : io.State) → (handshake io s).0 ≢ err panicked
unfolding handshake
handshake-ne-panicked io s h = ground arith
