-- ===== src/Quic/Stream/Joined.antt =====
-- The two streams together are a connection.
use dandelion.Prelude.{ℕ, ◌≤◌, [], ◌++◌, ◌≡◌, ◌⊎◌, refl, ap, length, take}
use dandelion.Prelude.Exec.{Result, ok, err, Poll, ready, pending}
use dandelion.Net.{Text}
use dandelion.Io.AsyncIo.{IsAsyncIo}
use dandelion.Quic.{Quinn}
use dandelion.Quic.Stream.{
  Halves, map_poll, poll_read, poll_write, poll_flush, poll_shutdown, stream,
}

-- What quinn documents of the halves: a read gives the next bytes of the stream that is received, a
-- write takes from the front of what it is given for the one that is sent.
pub record IsHalves (q : Quinn) (v : Halves q) (incoming : q.RecvStream → Text)
    (sent : q.SendStream → Text) : Type 0 where
  pub poll_read-ready :
      (n : ℕ) (s s' : q.RecvStream) (bs : Text)
      → v.poll_read n s ≡ (ready (ok bs), s')
      → (incoming s ≡ bs ++ incoming s') × (length bs ≤ n) × (bs ≡ [] → (n ≡ 0) ⊎ (incoming s ≡ []))
  pub poll_read-pending :
      (n : ℕ) (s s' : q.RecvStream) → v.poll_read n s ≡ (pending, s') → incoming s' ≡ incoming s
  pub poll_write-ready :
      (bs : Text) (s s' : q.SendStream) (n : ℕ)
      → v.poll_write bs s ≡ (ready (ok n), s')
      → (n ≤ length bs) × (sent s' ≡ sent s ++ take n bs)
  pub poll_flush-sent : (s : q.SendStream) → sent (v.poll_flush s).1 ≡ sent s
  pub poll_shutdown-sent : (s : q.SendStream) → sent (v.poll_shutdown s).1 ≡ sent s

map_poll-ready :
    {E F A : Type 0} (f : E → F) (p : Poll (Result E A)) (a : A)
    → map_poll f p ≡ ready (ok a)
    → p ≡ ready (ok a)
map_poll-ready f pending a e = absurd (cc)
map_poll-ready f (ready (ok b)) a e = cc
map_poll-ready f (ready (err x)) a e = absurd (cc)

module _ (q : Quinn) (v : Halves q) (incoming : q.RecvStream → Text) (sent : q.SendStream → Text)
    (laws : IsHalves q v incoming sent) where
  -- Over halves that behave as quinn documents, a QUIC stream is a connection that behaves as tokio
  -- documents: it reads from the one half and writes to the other, and neither disturbs the other.
  stream-IsAsyncIo : IsAsyncIo (stream q v) (λ s. incoming s.recv) (λ s. sent s.send)
  unfolding poll_read poll_write poll_flush poll_shutdown
  stream-IsAsyncIo = record {
    poll_read-ready =
        λ n s s' bs e. laws.poll_read-ready n s.recv s'.recv bs (λ i. ((e i).0, (e i).1.recv));
    poll_read-sent = λ n s. refl;
    poll_read-pending =
        λ n s s' e. laws.poll_read-pending n s.recv s'.recv (λ i. ((e i).0, (e i).1.recv));
    poll_write-ready = λ bs s s' n e.
        let wrote = map_poll-ready v.into (v.poll_write bs s.send).0 n (ap (λ x. x.0) e) in
        laws.poll_write-ready bs s.send s'.send n (λ i. (wrote i, (e i).1.send));
    poll_write-incoming = λ bs s. refl;
    poll_flush-incoming = λ s. refl;
    poll_flush-sent = λ s. laws.poll_flush-sent s.send;
    poll_shutdown-incoming = λ s. refl;
    poll_shutdown-sent = λ s. laws.poll_shutdown-sent s.send;
  }
