-- ===== src/Simplex/Stream.antt =====
-- core/src/core/simplex/io.rs: `WebSocketStreamToAsyncWrite`, a byte stream over a websocket's
-- messages. The websocket, tungstenite's, is a parameter.
pub mod Reads
pub mod Writes
pub mod Shutdown
mod Tests
use mathlib.Core.Option
use dandelion.Prelude.{
  ℕ, List, [], ◌∷◌, ◌++◌, Option, none, some, Bool, true, false, ◌==◌, leb, if◌then◌else◌, length,
  take, drop, min,
}
use dandelion.Prelude.Exec.{Result, ok, err, Poll, ready, pending}
use dandelion.Net.{Text}

-- A websocket: tungstenite's messages with their equality, and the operations of `Sink` and `Stream`.
pub record Ws : Type 1 where
  pub State : Type 0
  pub Message : Type 0
  pub Error : Type 0
  pub text : Text → Message
  pub binary : Text → Message
  pub into_data : Message → Text
  pub is_same : Message → Message → Bool
  pub poll_ready : State → Poll (Result Error (Unit {0})) × State
  pub start_send : Message → State → Result Error (Unit {0}) × State
  pub poll_flush : State → Poll (Result Error (Unit {0})) × State
  pub poll_close : State → Poll (Result Error (Unit {0})) × State
  pub poll_next : State → Poll (Option (Result Error Message)) × State

-- a chunk that is used up is dropped
abbrev pub rest_of : Text → Option Text
rest_of [] = none
rest_of (b ∷ bs) = some (b ∷ bs)

module _ (ws : Ws) where
  open ws use {
    State, Message, text, binary, into_data, is_same, poll_ready, start_send, poll_close, poll_next,
  }

  -- `waker` holds the task that is registered, if one is; `woken` lists the tasks that were woken.
  pub record WebSocketStreamToAsyncWrite : Type 0 where
    pub stream : State
    pub read_closed : Bool
    pub write_closed : Bool
    pub waker : Option ℕ
    pub woken : List ℕ
    pub chunk : Option Text

  unfoldable pub new : State → WebSocketStreamToAsyncWrite
  new s = record {
    stream = s;
    read_closed = false;
    write_closed = false;
    waker = none;
    woken = [];
    chunk = none;
  }

  -- `EOF_MESSAGE`
  abbrev pub eof_message : Message
  eof_message = text (b'E' ∷ b'O' ∷ b'F' ∷ [])

  abbrev pub is_eof : Message → Bool
  is_eof m = is_same m eof_message

  -- `AtomicWaker::wake`
  abbrev pub wake : WebSocketStreamToAsyncWrite → WebSocketStreamToAsyncWrite
  wake s = elim s.waker [ none ↦ s | some task ↦ record s { waker = none; woken = task ∷ s.woken } ]

  abbrev pub started : {A : Type 0} → A → Result ws.Error (Unit {0}) → Result ws.Error A
  started a (ok _) = ok a
  started a (err e) = err e

  abbrev pub sent :
      Text
      → Poll (Result ws.Error (Unit {0})) × State
      → WebSocketStreamToAsyncWrite
      → Poll (Result ws.Error ℕ) × WebSocketStreamToAsyncWrite
  sent buf (pending, t) s = (pending, record s { stream = t })
  sent buf (ready (err e), t) s = (ready (err e), record s { stream = t })
  sent buf (ready (ok _), t) s = (
    ready (started (length buf) (start_send (binary buf) t).0),
    record s { stream = (start_send (binary buf) t).1 },
  )

  unfoldable pub poll_write :
      Text → WebSocketStreamToAsyncWrite → Poll (Result ws.Error ℕ) × WebSocketStreamToAsyncWrite
  poll_write buf s = sent buf (poll_ready s.stream) s

  unfoldable pub poll_flush :
      WebSocketStreamToAsyncWrite → Poll (Result ws.Error (Unit {0})) × WebSocketStreamToAsyncWrite
  poll_flush s = ((ws.poll_flush s.stream).0, record s { stream = (ws.poll_flush s.stream).1 })

  -- the second half of `poll_shutdown`, where the end has been sent
  unfoldable pub close_when_read :
      ℕ
      → WebSocketStreamToAsyncWrite
      → Poll (Result ws.Error (Unit {0})) × WebSocketStreamToAsyncWrite
  close_when_read task s =
      if s.read_closed
      then ((poll_close s.stream).0, record s { stream = (poll_close s.stream).1 })
      else (pending, record s { waker = some task })

  abbrev pub eof_started :
      ℕ
      → WebSocketStreamToAsyncWrite
      → Result ws.Error (Unit {0})
      → Poll (Result ws.Error (Unit {0})) × WebSocketStreamToAsyncWrite
  eof_started task s (err e) = (ready (err e), s)
  eof_started task s (ok _) = close_when_read task (record s { write_closed = true })

  -- the first half, where it has not
  abbrev pub send_eof :
      ℕ
      → Poll (Result ws.Error (Unit {0})) × State
      → WebSocketStreamToAsyncWrite
      → Poll (Result ws.Error (Unit {0})) × WebSocketStreamToAsyncWrite
  send_eof task (pending, t) s = (pending, record s { stream = t })
  send_eof task (ready (err e), t) s = (ready (err e), record s { stream = t })
  send_eof task (ready (ok _), t) s =
      eof_started task (record s { stream = (start_send eof_message t).1 })
        (start_send eof_message t).0

  -- `task` is the task of the context.
  unfoldable pub poll_shutdown :
      ℕ
      → WebSocketStreamToAsyncWrite
      → Poll (Result ws.Error (Unit {0})) × WebSocketStreamToAsyncWrite
  unfolding close_when_read
  poll_shutdown task s =
      if s.write_closed then close_when_read task s else send_eof task (poll_ready s.stream) s

  abbrev pub close_read : WebSocketStreamToAsyncWrite → WebSocketStreamToAsyncWrite
  close_read s = let s' = record s { read_closed = true } in if s.write_closed then wake s' else s'

  abbrev pub received :
      Poll (Option (Result ws.Error Message))
      → WebSocketStreamToAsyncWrite
      → Poll (Result ws.Error Text) × WebSocketStreamToAsyncWrite
  received pending s = (pending, s)
  received (ready none) s = (ready (ok []), if s.read_closed then s else close_read s)
  received (ready (some (err e))) s = (ready (err e), s)
  received (ready (some (ok m))) s =
      if is_eof m
      then (ready (ok []), close_read s)
      else (ready (ok (into_data m)), record s { chunk = some (into_data m) })

  unfoldable pub fill_from :
      Option Text
      → WebSocketStreamToAsyncWrite
      → Poll (Result ws.Error Text) × WebSocketStreamToAsyncWrite
  fill_from (some chunk) s = (ready (ok chunk), s)
  fill_from none s = received (poll_next s.stream).0 (record s { stream = (poll_next s.stream).1 })

  unfoldable pub poll_fill_buf :
      WebSocketStreamToAsyncWrite → Poll (Result ws.Error Text) × WebSocketStreamToAsyncWrite
  unfolding fill_from
  poll_fill_buf s = fill_from s.chunk s

  -- `none` where the source panics: there is no chunk, or it is shorter than `amt`.
  unfoldable pub consume : ℕ → WebSocketStreamToAsyncWrite → Option WebSocketStreamToAsyncWrite
  consume amt s = if amt == 0 then some s else elim s.chunk [
    | none ↦ none
    | some chunk ↦
        if leb amt (length chunk)
        then some (record s { chunk = rest_of (drop amt chunk) })
        else none
  ]

  abbrev pub put :
      ℕ
      → Poll (Result ws.Error Text) × WebSocketStreamToAsyncWrite
      → Option (Poll (Result ws.Error Text) × WebSocketStreamToAsyncWrite)
  put remaining (pending, s) = some (pending, s)
  put remaining (ready (err e), s) = some (ready (err e), s)
  put remaining (ready (ok inner), s) =
      let len = min (length inner) remaining in
      Option.map (λ s'. (ready (ok (take len inner)), s')) (consume len s)

  -- What is put into the buffer, of which `remaining` bytes are free; `none` is a panic.
  unfoldable pub poll_read :
      ℕ
      → WebSocketStreamToAsyncWrite
      → Option (Poll (Result ws.Error Text) × WebSocketStreamToAsyncWrite)
  unfolding poll_fill_buf consume
  poll_read remaining s =
      if remaining == 0 then some (ready (ok []), s) else put remaining (poll_fill_buf s)
