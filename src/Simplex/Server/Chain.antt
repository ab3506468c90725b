-- ===== src/Simplex/Server/Chain.antt =====
-- core/src/core/simplex/server.rs, `ChainReadBufAndIo`: the connection after the upgrade, with the
-- bytes that hyper had read of it already. The connection itself, tokio's, is a parameter.
pub mod Async
mod Tests
use dandelion.Prelude.{ℕ, List, [], ◌∷◌, length, take, drop, min}
use dandelion.Prelude.Exec.{Result, ok, Poll, ready}
use dandelion.Net.{Text}
use dandelion.Io.AsyncIo.{AsyncIo}

pub record ChainReadBufAndIo (io : AsyncIo) : Type 0 where
  pub read_buf : Text
  pub io_state : io.State

module _ (io : AsyncIo) where
  abbrev pub on_io : {A : Type 0} → Text → Poll A × io.State → Poll A × ChainReadBufAndIo io
  on_io read_buf (p, s) = (p, record { read_buf = read_buf; io_state = s })

  abbrev pub read_from : Text → ℕ → io.State → Poll (Result io.Error Text) × ChainReadBufAndIo io
  read_from [] remaining s = on_io [] (io.poll_read remaining s)
  read_from (b ∷ bs) remaining s =
      let len = min (length (b ∷ bs)) remaining in
      (ready (ok (take len (b ∷ bs))), record { read_buf = drop len (b ∷ bs); io_state = s })

  unfoldable pub poll_read :
      ℕ → ChainReadBufAndIo io → Poll (Result io.Error Text) × ChainReadBufAndIo io
  poll_read remaining this = read_from this.read_buf remaining this.io_state

  unfoldable pub poll_write :
      Text → ChainReadBufAndIo io → Poll (Result io.Error ℕ) × ChainReadBufAndIo io
  poll_write buf this = on_io this.read_buf (io.poll_write buf this.io_state)

  unfoldable pub poll_flush :
      ChainReadBufAndIo io → Poll (Result io.Error (Unit {0})) × ChainReadBufAndIo io
  poll_flush this = on_io this.read_buf (io.poll_flush this.io_state)

  unfoldable pub poll_shutdown :
      ChainReadBufAndIo io → Poll (Result io.Error (Unit {0})) × ChainReadBufAndIo io
  poll_shutdown this = on_io this.read_buf (io.poll_shutdown this.io_state)

  -- `impl AsyncRead` and `impl AsyncWrite`
  abbrev pub chained : AsyncIo
  chained = record {
    State = ChainReadBufAndIo io;
    Error = io.Error;
    poll_read = poll_read;
    poll_write = poll_write;
    poll_flush = poll_flush;
    poll_shutdown = poll_shutdown;
  }
