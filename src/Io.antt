-- ===== src/Io.antt =====
-- core/src/core/io.rs: a connection, `impl Io`, with the operations of tokio's `AsyncReadExt` and
-- `AsyncWriteExt` that the protocols call. Tokio is not part of the repository, so a connection is
-- a parameter, and what tokio documents of the operations is a record of hypotheses.
pub mod Rules
pub mod Pipe
pub mod ReadBuf
pub mod AsyncIo
use dandelion.Prelude.{ℕ, ◌+◌, ◌*◌, ◌<◌, List, [], ◌∷◌, ◌++◌, ◌≡◌, length}
use dandelion.Prelude.Exec.{Result, ok, err, Exec}
use dandelion.Net.{Text}

-- `std::io::Error`
pub data IoError : Type 0 where
  unexpected_eof other : IoError

pub record Io : Type 1 where
  pub State : Type 0
  pub read_exact : ℕ → Exec IoError State Text
  pub read_u8 : Exec IoError State ℕ
  pub read_u16 : Exec IoError State ℕ
  pub write_all : Text → Exec IoError State (Unit {0})

-- `?` on an I/O error, which becomes an error of the caller.
abbrev pub map_err : {E F A : Type 0} → (E → F) → Result E A → Result F A
map_err f (ok a) = ok a
map_err f (err e) = err (f e)

abbrev pub lift : {E F S A : Type 0} → (E → F) → Exec E S A → Exec F S A
lift f m s = (map_err f (m s).0, (m s).1)

-- What a peer sees of a connection: the bytes that are still to come from it, and those that were
-- sent to it. While `IsOpen` holds, the peer takes what is written.
pub record Wire (io : Io) : Type 1 where
  pub incoming : io.State → Text
  pub sent : io.State → Text
  pub IsOpen : io.State → Type 0

-- From an open connection on which `received` comes next, `m` returns `a`, takes exactly these
-- bytes from the connection, leaves what comes behind them, and sends exactly `out`.
pub record Talks {E A : Type 0} (io : Io) (w : Wire io) (m : Exec E io.State A)
    (received out : Text) (a : A) : Type 0 where
  pub at :
      (s : io.State) (rest : Text)
      → w.IsOpen s
      → w.incoming s ≡ received ++ rest
      → (s' : io.State) × (m s ≡ (ok a, s'))
        × w.IsOpen s'
        × (w.incoming s' ≡ rest)
        × (w.sent s' ≡ w.sent s ++ out)

-- What tokio documents of the operations.
pub record IsByteStream (io : Io) (w : Wire io) : Type 0 where
  pub read_exact-Talks : (bs : Text) → Talks io w (io.read_exact (length bs)) bs [] bs
  pub read_u8-Talks : (b : ℕ) → b < 256 → Talks io w io.read_u8 (b ∷ []) [] b
  pub read_u16-Talks :
      (hi lo : ℕ) → hi < 256 → lo < 256 → Talks io w io.read_u16 (hi ∷ lo ∷ []) [] (hi * 256 + lo)
  pub write_all-Talks : (bs : Text) → Talks io w (io.write_all bs) [] bs tt

-- Wherever `m` succeeds, what it took from the connection satisfies `P` with its result.
pub record Takes {E A : Type 0} (io : Io) (w : Wire io) (m : Exec E io.State A)
    (P : A → Text → Type 0) : Type 0 where
  pub at :
      (s s' : io.State) (a : A)
      → m s ≡ (ok a, s')
      → (taken : Text) × (w.incoming s ≡ taken ++ w.incoming s') × P a taken

-- What tokio documents of an operation that reports success.
pub record ReportsSuccess (io : Io) (w : Wire io) : Type 0 where
  pub read_exact-Takes :
      (n : ℕ) → Takes io w (io.read_exact n) (λ bs taken. (taken ≡ bs) × (length bs ≡ n))
  pub read_u8-Takes : Takes io w io.read_u8 (λ b taken. (taken ≡ b ∷ []) × (b < 256))
  pub read_u16-Takes : Takes io w io.read_u16 (λ n taken.
      (hi : ℕ) × (lo : ℕ) × (taken ≡ hi ∷ lo ∷ []) × (hi < 256) × (lo < 256) × (n ≡ hi * 256 + lo))
  pub write_all-Takes : (bs : Text) → Takes io w (io.write_all bs) (λ _ taken. taken ≡ [])
