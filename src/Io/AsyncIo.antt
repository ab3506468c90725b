-- ===== src/Io/AsyncIo.antt =====
-- tokio's `AsyncRead` and `AsyncWrite`: a connection that is polled. What tokio documents of it is a
-- record of hypotheses.
use dandelion.Prelude.{ℕ, ◌≤◌, [], ◌++◌, ◌≡◌, ◌⊎◌, length, take}
use dandelion.Prelude.Exec.{Result, ok, Poll, ready, pending}
use dandelion.Net.{Text}

-- A read is given the room that is left in its buffer, and gives the
-- bytes that it put there.
pub record AsyncIo : Type 1 where
  pub State : Type 0
  pub Error : Type 0
  pub poll_read : ℕ → State → Poll (Result Error Text) × State
  pub poll_write : Text → State → Poll (Result Error ℕ) × State
  pub poll_flush : State → Poll (Result Error (Unit {0})) × State
  pub poll_shutdown : State → Poll (Result Error (Unit {0})) × State

-- What tokio documents of a connection, over what is to be read from it and what was written to it.
pub record IsAsyncIo (io : AsyncIo) (incoming sent : io.State → Text) : Type 0 where
  -- a read gives the next bytes, no more than there is room for, and none at the end only
  pub poll_read-ready :
      (n : ℕ) (s s' : io.State) (bs : Text)
      → io.poll_read n s ≡ (ready (ok bs), s')
      → (incoming s ≡ bs ++ incoming s') × (length bs ≤ n) × (bs ≡ [] → (n ≡ 0) ⊎ (incoming s ≡ []))
  pub poll_read-sent : (n : ℕ) (s : io.State) → sent (io.poll_read n s).1 ≡ sent s
  pub poll_read-pending :
      (n : ℕ) (s s' : io.State) → io.poll_read n s ≡ (pending, s') → incoming s' ≡ incoming s
  -- a write takes from the front of what it is given
  pub poll_write-ready :
      (bs : Text) (s s' : io.State) (n : ℕ)
      → io.poll_write bs s ≡ (ready (ok n), s')
      → (n ≤ length bs) × (sent s' ≡ sent s ++ take n bs)
  pub poll_write-incoming :
      (bs : Text) (s : io.State) → incoming (io.poll_write bs s).1 ≡ incoming s
  pub poll_flush-incoming : (s : io.State) → incoming (io.poll_flush s).1 ≡ incoming s
  pub poll_flush-sent : (s : io.State) → sent (io.poll_flush s).1 ≡ sent s
  pub poll_shutdown-incoming : (s : io.State) → incoming (io.poll_shutdown s).1 ≡ incoming s
  pub poll_shutdown-sent : (s : io.State) → sent (io.poll_shutdown s).1 ≡ sent s
