-- ===== src/Simplex/Server/Chain/Async.antt =====
-- The chain of a buffer and a connection is a connection again.
use dandelion.Prelude.{
  ℕ, ◌≤◌, [], ◌∷◌, ◌++◌, ◌≡◌, ◌⊎◌, inl, refl, sym, ap, ◌∙◌, length, take, drop, min,
  take-append-drop, length-take-le, append_assoc, arith,
}
use dandelion.Prelude.Exec.{Result, ok, Poll, ready, pending}
use dandelion.Net.{Text}
use dandelion.Io.AsyncIo.{AsyncIo, IsAsyncIo}
use dandelion.Simplex.Server.Chain.{
  ChainReadBufAndIo, on_io, read_from, chained, poll_read, poll_write, poll_flush, poll_shutdown,
}

-- the front of a buffer for which there is room
length-front : (n : ℕ) (xs : Text) → length (take (min (length xs) n) xs) ≡ min (length xs) n
length-front n xs = length-take-le (min (length xs) n) xs (omega arith)

front-end : (n b : ℕ) (bs : Text) → take (min (length (b ∷ bs)) n) (b ∷ bs) ≡ [] → n ≡ 0
front-end n b bs e = omega (arith, length-front n (b ∷ bs), ap length e)

module _ (io : AsyncIo) (incoming sent : io.State → Text) (laws : IsAsyncIo io incoming sent) where
  abbrev pub all_incoming : ChainReadBufAndIo io → Text
  all_incoming c = c.read_buf ++ incoming c.io_state

  abbrev pub all_sent : ChainReadBufAndIo io → Text
  all_sent c = sent c.io_state

  ready_ok_inj :
      (a b : Text) → ◌≡◌ {A = Poll (Result io.Error Text)} (ready (ok a)) (ready (ok b)) → a ≡ b
  ready_ok_inj a b e = cc

  on_io_lem :
      {A : Type 0} (buf : Text) (x : Poll A × io.State) (a : Poll A) (c : ChainReadBufAndIo io)
      → on_io io buf x ≡ (a, c)
      → (x ≡ (a, c.io_state)) × (c.read_buf ≡ buf)
  on_io_lem buf (p, s) a c e = (λ i. ((e i).0, (e i).1.io_state), sym (ap (λ x. x.1.read_buf) e))

  read_from-ready :
      (buf : Text) (n : ℕ) (s : io.State) (c : ChainReadBufAndIo io) (bs : Text)
      → read_from io buf n s ≡ (ready (ok bs), c)
      → (buf ++ incoming s ≡ bs ++ all_incoming c)
        × (length bs ≤ n)
        × (bs ≡ [] → (n ≡ 0) ⊎ (buf ++ incoming s ≡ []))
  read_from-ready [] n s c bs e =
      let (read, empty) = on_io_lem [] (io.poll_read n s) (ready (ok bs)) c e in
      let (taken, fits, at_end) = laws.poll_read-ready n s c.io_state bs read in
      (rw empty taken, fits, at_end)
  read_from-ready (b ∷ buf) n s c bs e =
      let front : take (min (length (b ∷ buf)) n) (b ∷ buf) ≡ bs =
        ready_ok_inj _ _ (ap (λ x. x.0) e) in
      let back : drop (min (length (b ∷ buf)) n) (b ∷ buf) ≡ c.read_buf =
        ap (λ x. x.1.read_buf) e in
      let same : s ≡ c.io_state = ap (λ x. x.1.io_state) e in
      (
        rw (← front, ← back, ← same)
            (ap (λ z. z ++ incoming s) (sym (take-append-drop (min (length (b ∷ buf)) n) (b ∷ buf)))
              ∙ append_assoc (take (min (length (b ∷ buf)) n) (b ∷ buf))
                  (drop (min (length (b ∷ buf)) n) (b ∷ buf)) (incoming s)),
        omega (arith, length-front n (b ∷ buf), ap length front),
        λ none. inl (front-end n b buf (front ∙ none)),
      )

  read_from-pending :
      (buf : Text) (n : ℕ) (s : io.State) (c : ChainReadBufAndIo io)
      → read_from io buf n s ≡ (pending, c)
      → all_incoming c ≡ buf ++ incoming s
  read_from-pending [] n s c e =
      let (read, empty) = on_io_lem [] (io.poll_read n s) pending c e in
      rw empty (laws.poll_read-pending n s c.io_state read)
  read_from-pending (b ∷ buf) n s c e = absurd (ground (arith, ap (λ x. x.0) e))

  read_from-sent : (buf : Text) (n : ℕ) (s : io.State) → all_sent (read_from io buf n s).1 ≡ sent s
  read_from-sent [] n s = laws.poll_read-sent n s
  read_from-sent (b ∷ buf) n s = refl

  -- Over a connection that behaves as tokio documents, the connection after the upgrade does so too:
  -- what it has to read is the bytes that were read before and then those of the connection, in
  -- order and without loss, no read gives more than there is room for, or nothing before the end,
  -- and what is written goes to the connection.
  pub chained-IsAsyncIo : IsAsyncIo (chained io) all_incoming all_sent
  unfolding poll_read poll_write poll_flush poll_shutdown
  chained-IsAsyncIo = record {
    poll_read-ready = λ n c c' bs e. read_from-ready c.read_buf n c.io_state c' bs e;
    poll_read-sent = λ n c. read_from-sent c.read_buf n c.io_state;
    poll_read-pending = λ n c c' e. read_from-pending c.read_buf n c.io_state c' e;
    poll_write-ready = λ bs c c' n e.
        let (wrote, kept) =
          on_io_lem c.read_buf (io.poll_write bs c.io_state) (ready (ok n)) c' e in
        laws.poll_write-ready bs c.io_state c'.io_state n wrote;
    poll_write-incoming =
        λ bs c. ap (λ z. c.read_buf ++ z) (laws.poll_write-incoming bs c.io_state);
    poll_flush-incoming = λ c. ap (λ z. c.read_buf ++ z) (laws.poll_flush-incoming c.io_state);
    poll_flush-sent = λ c. laws.poll_flush-sent c.io_state;
    poll_shutdown-incoming =
        λ c. ap (λ z. c.read_buf ++ z) (laws.poll_shutdown-incoming c.io_state);
    poll_shutdown-sent = λ c. laws.poll_shutdown-sent c.io_state;
  }
