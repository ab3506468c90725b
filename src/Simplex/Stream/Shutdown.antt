-- ===== src/Simplex/Stream/Shutdown.antt =====
-- The end of a stream: the half that is closed last closes the websocket.
use dandelion.Prelude.{
  ℕ, [], ◌∷◌, Option, none, some, Bool, true, false, ◌≡◌, ◌==◌, if◌then◌else◌, refl, arith,
}
use dandelion.Prelude.Exec.{ok, ready, pending}
use dandelion.Net.{Text}
use dandelion.Simplex.Stream.{
  Ws, WebSocketStreamToAsyncWrite, poll_shutdown, poll_fill_buf, fill_from, poll_read, consume, put,
}

module _ (ws : Ws) where
  abbrev Stream : Type 0
  Stream = WebSocketStreamToAsyncWrite ws

  -- Where a shutdown reports success, both sides are closed in the state that it leaves.
  poll_shutdown-closed :
      (task : ℕ) (s : Stream)
      → (poll_shutdown ws task s).0 ≡ ready (ok tt)
      → ((poll_shutdown ws task s).1.write_closed ≡ true)
        × ((poll_shutdown ws task s).1.read_closed ≡ true)
  unfolding poll_shutdown
  poll_shutdown-closed task s h = ground arith

  shutdown-registers :
      (task : ℕ) (s : Stream)
      → (poll_shutdown ws task s).0 ≡ pending
      → (poll_shutdown ws task s).1.write_closed ≡ true
      → (poll_shutdown ws task s).1.read_closed ≡ false
      → (poll_shutdown ws task s).1.waker ≡ some task
  unfolding poll_shutdown
  shutdown-registers task s h w r = ground arith

  fill_from-wakes :
      (o : Option Text) (task : ℕ) (s : Stream)
      → s.waker ≡ some task
      → s.write_closed ≡ true
      → s.read_closed ≡ false
      → (fill_from ws o s).1.read_closed ≡ true
      → (fill_from ws o s).1.woken ≡ task ∷ s.woken
  unfolding fill_from
  fill_from-wakes o task s k w r e = ground arith

  -- A task whose shutdown is pending while the write side is closed and the read side is not is woken
  -- by the filling of the buffer that closes the read side.
  pub poll_shutdown-woken :
      (task : ℕ) (s : Stream)
      → (poll_shutdown ws task s).0 ≡ pending
      → (poll_shutdown ws task s).1.write_closed ≡ true
      → (poll_shutdown ws task s).1.read_closed ≡ false
      → (poll_fill_buf ws (poll_shutdown ws task s).1).1.read_closed ≡ true
      → (poll_fill_buf ws (poll_shutdown ws task s).1).1.woken
        ≡ task ∷ (poll_shutdown ws task s).1.woken
  unfolding poll_fill_buf
  poll_shutdown-woken task s h w r =
      let s' : Stream = (poll_shutdown ws task s).1 in
      fill_from-wakes s'.chunk task s' (shutdown-registers task s h w r) w r

  empty-read :
      (n : ℕ) (b : Bool) (o : Option Text) (s : Stream)
      → o ≡ some []
      → (if b then some (ready (ok []), s) else put ws n (fill_from ws o s))
        ≡ some (ready (ok []), s)
  unfolding fill_from consume
  empty-read n true o s e = refl
  empty-read n false none s e = absurd (ground arith)
  empty-read n false (some []) s e = ground arith
  empty-read n false (some (b ∷ bs)) s e = absurd (ground arith)

  -- Once an empty message has become the chunk, every read reports the end of the stream and leaves
  -- the state as it is, so that no later message is ever read.
  pub poll_read-empty :
      (n : ℕ) (s : Stream) → s.chunk ≡ some [] → poll_read ws n s ≡ some (ready (ok []), s)
  unfolding poll_read poll_fill_buf
  poll_read-empty n s e = empty-read n (n == 0) s.chunk s e
