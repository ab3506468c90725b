-- ===== src/Simplex/Stream/Writes.antt =====
-- What the writer of a stream sends, and what the other side reads of it.
use dandelion.Prelude.{ℕ, List, [], ◌∷◌, ◌++◌, true, false, ◌≡◌, length, if◌then◌else◌, ◌||◌, ◌==◌}
use dandelion.Prelude.Exec.{ok, ready, pending}
use dandelion.Net.{Text}
use dandelion.Simplex.Stream.{
  Ws, WebSocketStreamToAsyncWrite, poll_write, poll_flush, poll_fill_buf, is_eof, eof_message,
}

-- `outbox` is what `Sink` documents of a websocket: the messages whose sending was started. That a
-- binary message is none of text is what tungstenite's equality says.
pub record IsOutbox (ws : Ws) (outbox : ws.State → List ws.Message) : Type 0 where
  pub outbox-start_send :
      (m : ws.Message) (s : ws.State)
      → (ws.start_send m s).0 ≡ ok tt
      → outbox (ws.start_send m s).1 ≡ outbox s ++ m ∷ []
  pub outbox-poll_ready : (s : ws.State) → outbox (ws.poll_ready s).1 ≡ outbox s
  pub outbox-poll_flush : (s : ws.State) → outbox (ws.poll_flush s).1 ≡ outbox s
  pub outbox-poll_close : (s : ws.State) → outbox (ws.poll_close s).1 ≡ outbox s
  pub outbox-poll_next : (s : ws.State) → outbox (ws.poll_next s).1 ≡ outbox s
  pub into_data-binary : (bs : Text) → ws.into_data (ws.binary bs) ≡ bs
  pub is_eof-binary : (bs : Text) → is_eof ws (ws.binary bs) ≡ false
  pub is_eof-eof : is_eof ws (eof_message ws) ≡ true

abbrev pub concat : List Text → Text
concat [] = []
concat (bs ∷ rest) = bs ++ concat rest

-- The bytes that a reader gets before it reports the end, which it does at the message that marks
-- it, and at any other without bytes.
abbrev pub data_read : (ws : Ws) → List ws.Message → Text
data_read ws [] = []
data_read ws (m ∷ ms) =
    let rest = data_read ws ms in
    if is_eof ws m || length (ws.into_data m) == 0 then [] else ws.into_data m ++ rest

module _ (ws : Ws) where
  abbrev Stream : Type 0
  Stream = WebSocketStreamToAsyncWrite ws

  -- The uses of a stream up to its shutdown, with the buffers whose writes succeeded, in order.
  pub data Sends : Stream → List Text → Stream → Type 0 where
    stays : (s : Stream) → Sends s [] s
    writes :
        (s s' : Stream) (buf : Text) (bufs : List Text) (n : ℕ)
        → (poll_write ws buf s).0 ≡ ready (ok n)
        → Sends (poll_write ws buf s).1 bufs s'
        → Sends s (buf ∷ bufs) s'
    waits :
        (s s' : Stream) (buf : Text) (bufs : List Text)
        → (poll_write ws buf s).0 ≡ pending
        → Sends (poll_write ws buf s).1 bufs s'
        → Sends s bufs s'
    flushes :
        (s s' : Stream) (bufs : List Text) → Sends (poll_flush ws s).1 bufs s' → Sends s bufs s'
    fills :
        (s s' : Stream) (bufs : List Text) → Sends (poll_fill_buf ws s).1 bufs s' → Sends s bufs s'
