-- ===== src/Quic/Stream.antt =====
-- core/src/core/quic/mod.rs: the two streams of a connection as one. Their operations are quinn's.
pub mod Joined
use dandelion.Prelude.{ℕ}
use dandelion.Prelude.Exec.{Result, ok, err, Poll, ready, pending}
use dandelion.Net.{Text}
use dandelion.Io.{map_err}
use dandelion.Io.AsyncIo.{AsyncIo}
use dandelion.Quic.{Quinn, QuicStream}

-- `SendStream` and `RecvStream`; a write has an error of its own, which `into` makes one of `std::io`.
pub record Halves (q : Quinn) : Type 1 where
  pub Error : Type 0
  pub WriteError : Type 0
  pub into : WriteError → Error
  pub poll_read : ℕ → q.RecvStream → Poll (Result Error Text) × q.RecvStream
  pub poll_write : Text → q.SendStream → Poll (Result WriteError ℕ) × q.SendStream
  pub poll_flush : q.SendStream → Poll (Result Error (Unit {0})) × q.SendStream
  pub poll_shutdown : q.SendStream → Poll (Result Error (Unit {0})) × q.SendStream

-- `Poll::map_err` on a result
abbrev pub map_poll : {E F A : Type 0} → (E → F) → Poll (Result E A) → Poll (Result F A)
map_poll f pending = pending
map_poll f (ready r) = ready (map_err f r)

module _ (q : Quinn) (v : Halves q) where
  abbrev pub on_recv : {A : Type 0} → q.SendStream → Poll A × q.RecvStream → Poll A × QuicStream q
  on_recv send (p, recv) = (p, record { send = send; recv = recv })

  abbrev pub on_send : {A : Type 0} → q.RecvStream → Poll A × q.SendStream → Poll A × QuicStream q
  on_send recv (p, send) = (p, record { send = send; recv = recv })

  unfoldable pub poll_read : ℕ → QuicStream q → Poll (Result v.Error Text) × QuicStream q
  poll_read n s = on_recv s.send (v.poll_read n s.recv)

  unfoldable pub poll_write : Text → QuicStream q → Poll (Result v.Error ℕ) × QuicStream q
  poll_write buf s =
      on_send s.recv (map_poll v.into (v.poll_write buf s.send).0, (v.poll_write buf s.send).1)

  unfoldable pub poll_flush : QuicStream q → Poll (Result v.Error (Unit {0})) × QuicStream q
  poll_flush s = on_send s.recv (v.poll_flush s.send)

  unfoldable pub poll_shutdown : QuicStream q → Poll (Result v.Error (Unit {0})) × QuicStream q
  poll_shutdown s = on_send s.recv (v.poll_shutdown s.send)

  -- `impl AsyncRead` and `impl AsyncWrite`
  abbrev pub stream : AsyncIo
  stream = record {
    State = QuicStream q;
    Error = v.Error;
    poll_read = poll_read;
    poll_write = poll_write;
    poll_flush = poll_flush;
    poll_shutdown = poll_shutdown;
  }
