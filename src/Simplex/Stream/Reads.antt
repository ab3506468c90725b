-- ===== src/Simplex/Stream/Reads.antt =====
-- What the reader of a stream gets.
use dandelion.Prelude.{
  ℕ, zero, suc, ◌≤◌, List, [], ◌∷◌, ◌++◌, Option, none, some, Bool, true, false, ◌≡◌, inl, inr,
  refl, sym, ◌∙◌, ap, arith, length, take, drop, min, ◌==◌, if◌then◌else◌, take-append-drop,
  length-take-le, append_assoc, Bool-cases,
}
use dandelion.Prelude.Exec.{Result, ok, err, Poll, ready, pending}
use dandelion.Net.{Text}
use dandelion.Simplex.Stream.{
  Ws, WebSocketStreamToAsyncWrite, is_eof, received, close_read, fill_from, poll_fill_buf, rest_of,
  consume, put, poll_read,
}

-- The bytes of the messages before the one that marks the end.
abbrev pub data_of : (ws : Ws) → List ws.Message → Text
data_of ws [] = []
data_of ws (m ∷ ms) = if is_eof ws m then [] else ws.into_data m ++ data_of ws ms

abbrev pub bytes_of : Option Text → Text
bytes_of none = []
bytes_of (some bs) = bs

-- `inbox` is what `Stream` documents of a websocket: the messages still to come, first the next.
pub record IsInbox (ws : Ws) (inbox : ws.State → List ws.Message) : Type 0 where
  pub inbox-message :
      (s : ws.State) (m : ws.Message)
      → (ws.poll_next s).0 ≡ ready (some (ok m))
      → inbox s ≡ m ∷ inbox (ws.poll_next s).1
  pub inbox-pending :
      (s : ws.State) → (ws.poll_next s).0 ≡ pending → inbox (ws.poll_next s).1 ≡ inbox s
  pub inbox-end : (s : ws.State) → (ws.poll_next s).0 ≡ ready none → inbox s ≡ []

bytes_of-rest_of : (bs : Text) → bytes_of (rest_of bs) ≡ bs
bytes_of-rest_of [] = refl
bytes_of-rest_of (b ∷ bs) = refl

module _ (ws : Ws) where
  abbrev Stream : Type 0
  Stream = WebSocketStreamToAsyncWrite ws

  consume_lem :
      (amt : ℕ) (s : Stream) (c : Text)
      → s.chunk ≡ some c
      → amt ≤ length c
      → (s' : Stream) × (consume ws amt s ≡ some s')
        × (bytes_of s'.chunk ≡ drop amt c)
        × (s'.stream ≡ s.stream)
        × (s'.read_closed ≡ s.read_closed)
  unfolding consume
  consume_lem zero s c e h = (s, refl, rw e refl, refl, refl)
  consume_lem (suc amt) s c e h = (
    record s { chunk = rest_of (drop (suc amt) c) },
    rw e (ground arith),
    bytes_of-rest_of (drop (suc amt) c),
    refl,
    refl,
  )

  module _ (inbox : ws.State → List ws.Message) where
    -- what the reader is still to get
    abbrev pub unread : Stream → Text
    unread s = bytes_of s.chunk ++ data_of ws (inbox s.stream)

    -- What `poll_fill_buf` comes to from the state `s`.
    data Fill (s : Stream) : Poll (Result ws.Error Text) × Stream → Type 0 where
      holds :
          (c : Text) (s' : Stream)
          → s'.chunk ≡ some c
          → unread s' ≡ unread s
          → s'.read_closed ≡ s.read_closed
          → Fill s (ready (ok c), s')
      ended : (s' : Stream) → s'.read_closed ≡ true → unread s ≡ [] → Fill s (ready (ok []), s')
      fails : (e : ws.Error) (s' : Stream) → Fill s (ready (err e), s')
      waits : (s' : Stream) → unread s' ≡ unread s → Fill s (pending, s')

    -- What a read with `n` free bytes gets from the state `s`.
    pub data Got (n : ℕ) (s : Stream) : Poll (Result ws.Error Text) → Stream → Type 0 where
      got :
          (bs : Text) (s' : Stream)
          → length bs ≤ n
          → bs ++ unread s' ≡ unread s
          → s'.read_closed ≡ s.read_closed
          → Got n s (ready (ok bs)) s'
      at_end : (s' : Stream) → s'.read_closed ≡ true → unread s ≡ [] → Got n s (ready (ok [])) s'
      broken : (e : ws.Error) (s' : Stream) → Got n s (ready (err e)) s'
      blocked : (s' : Stream) → unread s' ≡ unread s → Got n s pending s'

    module _ (ib : IsInbox ws inbox) where
      close_read-closes : (s : Stream) → (close_read ws s).read_closed ≡ true
      close_read-closes s = ground arith

      received-Fill :
          (s : Stream) (p : Poll (Option (Result ws.Error ws.Message)))
          → s.chunk ≡ none
          → (ws.poll_next s.stream).0 ≡ p
          → Fill s (received ws p (record s { stream = (ws.poll_next s.stream).1 }))
      received-Fill s pending e p = waits _ (rw (e, ib.inbox-pending s.stream p) refl)
      received-Fill s (ready none) e p =
          ended _ (ground arith) (rw (e, ib.inbox-end s.stream p) refl)
      received-Fill s (ready (some (err x))) e p = fails x _
      received-Fill s (ready (some (ok m))) e p =
          let after : Stream = record s { stream = (ws.poll_next s.stream).1 } in
          elim (Bool-cases (is_eof ws m)) [
            | inl eof ↦ rw eof (
                ended (close_read ws after) (close_read-closes after)
                  (rw (e, ib.inbox-message s.stream m p, eof) refl))
            | inr more ↦ rw more (
                holds (ws.into_data m) (record after { chunk = some (ws.into_data m) }) refl
                  (rw (e, ib.inbox-message s.stream m p, more) refl) refl)
          ]

      fill_from-Fill : (s : Stream) (o : Option Text) → s.chunk ≡ o → Fill s (fill_from ws o s)
      unfolding fill_from
      fill_from-Fill s (some c) e = holds c s e refl refl
      fill_from-Fill s none e = received-Fill s (ws.poll_next s.stream).0 e refl

      fill : (s : Stream) → Fill s (poll_fill_buf ws s)
      unfolding poll_fill_buf
      fill s = fill_from-Fill s s.chunk refl

      take-unread :
          (s s' : Stream) (c : Text) (len : ℕ)
          → s.chunk ≡ some c
          → bytes_of s'.chunk ≡ drop len c
          → s'.stream ≡ s.stream
          → take len c ++ unread s' ≡ unread s
      take-unread s s' c len kept left at_stream =
          rw (left, at_stream, kept)
            (sym (append_assoc (take len c) (drop len c) (data_of ws (inbox s.stream)))
              ∙ ap (λ x. x ++ data_of ws (inbox s.stream)) (take-append-drop len c))

      put-Got :
          (n : ℕ) (s : Stream) (r : Poll (Result ws.Error Text) × Stream)
          → Fill s r
          → (q : Poll (Result ws.Error Text)) × (s' : Stream) × (put ws n r ≡ some (q, s'))
            × Got n s q s'
      unfolding consume
      put-Got n s _ (fails e s') = (ready (err e), s', refl, broken e s')
      put-Got n s _ (waits s' h) = (pending, s', refl, blocked s' h)
      put-Got n s _ (ended s' closed over) =
          (ready (ok []), s', ground arith, at_end s' closed over)
      put-Got n s _ (holds c s' kept same closed) =
          let (s2, used, left, at_stream, at_close) =
            consume_lem (min (length c) n) s' c kept (omega arith) in
          let len : ℕ = min (length c) n in
          (
            ready (ok (take len c)),
            s2,
            rw used refl,
            got (take len c) s2 (omega (arith, length-take-le len c (omega arith)))
                (take-unread s' s2 c len kept left at_stream ∙ same) (at_close ∙ closed),
          )

      read-if :
          (b : Bool) (n : ℕ) (s : Stream) (r : Option (Poll (Result ws.Error Text) × Stream))
          → (q : Poll (Result ws.Error Text)) × (s' : Stream) × (r ≡ some (q, s')) × Got n s q s'
          → (q : Poll (Result ws.Error Text)) × (s' : Stream) × ((if b
                then some (ready (ok []), s)
                else r)
              ≡ some (q, s'))
            × Got n s q s'
      read-if true n s r h = (ready (ok []), s, refl, got [] s (omega arith) refl refl)
      read-if false n s r h = h

      -- A read never panics. What it puts into the buffer fits, and is the beginning of what was still
      -- unread, the data of the messages before the end in their order, of which the rest stays
      -- unread; or the end was met, then nothing is put, nothing was unread, and the read side is
      -- closed. A read that is pending leaves what was unread.
      pub poll_read-Got :
          (n : ℕ) (s : Stream)
          → (q : Poll (Result ws.Error Text)) × (s' : Stream) × (poll_read ws n s ≡ some (q, s'))
            × Got n s q s'
      unfolding poll_read
      poll_read-Got n s =
          read-if (n == 0) n s (put ws n (poll_fill_buf ws s))
            (put-Got n s (poll_fill_buf ws s) (fill s))
