-- ===== src/Simplex/Stream/Tests.antt =====
-- A websocket of two queues, and the theorems on the byte stream over it.
use dandelion.Prelude.{
  List, [], ◌∷◌, ◌++◌, Option, none, some, Bool, true, false, ◌≡◌, refl, arith, eq_text,
}
use dandelion.Prelude.Exec.{Result, ok, Poll, ready, pending}
use dandelion.Net.{Text}
use dandelion.Simplex.Stream.{
  Ws, WebSocketStreamToAsyncWrite, poll_shutdown, poll_fill_buf, poll_read,
}
use dandelion.Simplex.Stream.Reads.{IsInbox, Got, poll_read-Got}
use dandelion.Simplex.Stream.Shutdown.{poll_shutdown-woken, poll_read-empty}

data Frame : Type 0 where
  text binary : Text → Frame

abbrev payload : Frame → Text
payload (text bs) = bs
payload (binary bs) = bs

abbrev is_same : Frame → Frame → Bool
is_same (text a) (text b) = eq_text a b
is_same (binary a) (binary b) = eq_text a b
is_same _ _ = false

record Queues : Type 0 where
  inbox : List Frame
  outbox : List Frame

abbrev next : List Frame → Queues → Poll (Option (Result (Unit {0}) Frame)) × Queues
next [] q = (pending, q)
next (m ∷ ms) q = (ready (some (ok m)), record q { inbox = ms })

abbrev queues : Ws
queues = record {
  State = Queues;
  Message = Frame;
  Error = Unit {0};
  text = text;
  binary = binary;
  into_data = payload;
  is_same = is_same;
  poll_ready = λ q. (ready (ok tt), q);
  start_send = λ m q. (ok tt, record q { outbox = q.outbox ++ m ∷ [] });
  poll_flush = λ q. (ready (ok tt), q);
  poll_close = λ q. (ready (ok tt), q);
  poll_next = λ q. next q.inbox q;
}

message_lem :
    (ms : List Frame) (q : Queues) (m : Frame)
    → (next ms q).0 ≡ ready (some (ok m))
    → ms ≡ m ∷ (next ms q).1.inbox
message_lem [] q m h = absurd (ground arith)
message_lem (x ∷ ms) q m h = ground arith

pending_lem :
    (ms : List Frame) (q : Queues)
    → ms ≡ q.inbox
    → (next ms q).0 ≡ pending
    → (next ms q).1.inbox ≡ q.inbox
pending_lem [] q e h = refl
pending_lem (x ∷ ms) q e h = absurd (ground arith)

end_lem : (ms : List Frame) (q : Queues) → (next ms q).0 ≡ ready none → ms ≡ []
end_lem [] q h = refl
end_lem (x ∷ ms) q h = absurd (ground arith)

queues-IsInbox : IsInbox queues (λ q. q.inbox)
queues-IsInbox = record {
  inbox-message = λ q. message_lem q.inbox q;
  inbox-pending = λ q. pending_lem q.inbox q refl;
  inbox-end = λ q. end_lem q.inbox q;
}

-- Two messages wait, and the end behind them.
abbrev arriving : WebSocketStreamToAsyncWrite queues
arriving = record {
  stream = record {
    inbox = binary (1 ∷ 2 ∷ 3 ∷ []) ∷ text (b'E' ∷ b'O' ∷ b'F' ∷ []) ∷ [];
    outbox = [];
  };
  read_closed = false;
  write_closed = false;
  waker = none;
  woken = [];
  chunk = none;
}

abbrev fresh : Queues
fresh = record { inbox = []; outbox = [] }

-- The end of the other side waits.
abbrev ending : WebSocketStreamToAsyncWrite queues
ending = record arriving {
  stream = record { inbox = text (b'E' ∷ b'O' ∷ b'F' ∷ []) ∷ []; outbox = [] };
}

abbrev closed : WebSocketStreamToAsyncWrite queues
closed = record arriving { read_closed = true }

poll_read-Got_example :
    (q : Poll (Result (Unit {0}) Text)) × (s' : WebSocketStreamToAsyncWrite queues) × (poll_read
        queues 2 arriving
      ≡ some (q, s'))
    × Got queues (λ q. q.inbox) 2 arriving q s'
poll_read-Got_example = poll_read-Got queues (λ q. q.inbox) queues-IsInbox 2 arriving

poll_shutdown-woken_example :
    (poll_fill_buf queues (poll_shutdown queues 5 ending).1).1.woken
    ≡ 5 ∷ (poll_shutdown queues 5 ending).1.woken
unfolding poll_shutdown poll_fill_buf
poll_shutdown-woken_example = poll_shutdown-woken queues 5 ending refl refl refl refl

poll_read-empty_example :
    poll_read queues 9 (record arriving { chunk = some [] })
    ≡ some (ready (ok []), record arriving { chunk = some [] })
poll_read-empty_example = poll_read-empty queues 9 (record arriving { chunk = some [] }) refl
