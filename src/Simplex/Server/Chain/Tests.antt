-- ===== src/Simplex/Server/Chain/Tests.antt =====
-- The chain over a connection in memory.
use dandelion.Prelude.{
  ℕ, ◌≤◌, zero, suc, [], ◌∷◌, ◌++◌, ◌≡◌, ◌⊎◌, inl, inr, refl, sym, ap, length, take, drop,
  take-append-drop, arith,
}
use dandelion.Prelude.Exec.{ok, ready}
use dandelion.Net.{Text}
use dandelion.Io.Pipe.{Ends}
use dandelion.Io.AsyncIo.{AsyncIo, IsAsyncIo}
use dandelion.Simplex.Server.Chain.{chained, poll_read}
use dandelion.Simplex.Server.Chain.Async.{all_incoming, all_sent, chained-IsAsyncIo}

abbrev memory : AsyncIo
memory = record {
  State = Ends;
  Error = Unit {0};
  poll_read = λ n p. (ready (ok (take n p.incoming)), record p { incoming = drop n p.incoming });
  poll_write = λ bs p. (ready (ok (length bs)), record p { sent = p.sent ++ bs });
  poll_flush = λ p. (ready (ok tt), p);
  poll_shutdown = λ p. (ready (ok tt), p);
}

length-take : (n : ℕ) (xs : Text) → length (take n xs) ≤ n
length-take zero xs = omega arith
length-take (suc n) [] = omega arith
length-take (suc n) (x ∷ xs) = omega (arith, length-take n xs)

take-end : (n : ℕ) (xs : Text) → take n xs ≡ [] → (n ≡ 0) ⊎ (xs ≡ [])
take-end zero xs e = inl refl
take-end (suc n) [] e = inr refl
take-end (suc n) (x ∷ xs) e = absurd (ground arith)

take_all : (xs : Text) → take (length xs) xs ≡ xs
take_all [] = refl
take_all (x ∷ xs) = ap (◌∷◌ x) (take_all xs)

memory-IsAsyncIo : IsAsyncIo memory (λ p. p.incoming) (λ p. p.sent)
memory-IsAsyncIo = record {
  poll_read-ready = λ n p p' bs e.
      let front : take n p.incoming ≡ bs = ground arith in
      let back : drop n p.incoming ≡ p'.incoming = ap (λ x. x.1.incoming) e in
      rw (← front, ← back)
        (sym (take-append-drop n p.incoming), length-take n p.incoming, take-end n p.incoming);
  poll_read-sent = λ n p. refl;
  poll_read-pending = λ n p p' e. absurd (ground (arith, ap (λ x. x.0) e));
  poll_write-ready = λ bs p p' n e.
      let all : length bs ≡ n = ground arith in
      let out : p.sent ++ bs ≡ p'.sent = ap (λ x. x.1.sent) e in
      rw (← all, ← out) (omega arith, ap (λ z. p.sent ++ z) (sym (take_all bs)));
  poll_write-incoming = λ bs p. refl;
  poll_flush-incoming = λ p. refl;
  poll_flush-sent = λ p. refl;
  poll_shutdown-incoming = λ p. refl;
  poll_shutdown-sent = λ p. refl;
}

chained-IsAsyncIo_example :
    IsAsyncIo
      (chained memory)
      (all_incoming memory (λ p. p.incoming) (λ p. p.sent) memory-IsAsyncIo)
      (all_sent memory (λ p. p.incoming) (λ p. p.sent) memory-IsAsyncIo)
chained-IsAsyncIo_example =
    chained-IsAsyncIo memory (λ p. p.incoming) (λ p. p.sent) memory-IsAsyncIo

-- A read does not go past the buffer.
buffer_test :
    poll_read memory 5
      (record { read_buf = 1 ∷ 2 ∷ []; io_state = record { incoming = 3 ∷ []; sent = [] } })
    ≡ (
      ready (ok (1 ∷ 2 ∷ [])),
      record { read_buf = []; io_state = record { incoming = 3 ∷ []; sent = [] } },
    )
unfolding poll_read
buffer_test = refl
