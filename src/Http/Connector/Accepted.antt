-- ===== src/Http/Connector/Accepted.antt =====
-- A proxy that accepts the request, however its response arrives.
use dandelion.Prelude.{
  ℕ, zero, suc, ◌<◌, [], ◌∷◌, ◌++◌, some, ◌≡◌, ◌≢◌, ◌⊎◌, inl, inr, refl, sym, ap, ◌∙◌, append_assoc,
  length, length-append, arith,
}
use dandelion.Prelude.Exec.{Result, ok}
use dandelion.Net.{Text, AddrText}
use dandelion.Endpoint.{Endpoint}
use dandelion.Io.{Io, Wire, IsByteStream}
use dandelion.Io.ReadBuf.{ReadBuf, IsReadBuf}
use dandelion.Http.Connector.{
  Parsed, partial_head, complete, Error, request_text, check, read_response, connect,
}

-- Two ways to cut one text: one of the front parts begins the other.
cut_twice :
    (xs ys zs ws : Text)
    → xs ++ ys ≡ zs ++ ws
    → ((c : Text) × (xs ≡ zs ++ c) × (ws ≡ c ++ ys))
      ⊎ ((c : Text) × (zs ≡ xs ++ c) × (c ≢ []) × (ys ≡ c ++ ws))
cut_twice xs ys [] ws e = inl (xs, refl, sym e)
cut_twice [] ys (z ∷ zs) ws e = inr (z ∷ zs, refl, λ h. absurd (ground arith), e)
cut_twice (x ∷ xs) ys (z ∷ zs) ws e =
    let same : x ≡ z = cc e in
    elim (cut_twice xs ys zs ws (cc e)) [
      | inl (c, front, back) ↦ inl (c, cc (same, front), back)
      | inr (c, front, more, back) ↦ inr (c, cc (same, front), more, back)
    ]

length-ne : (c : Text) → c ≢ [] → 0 < length c
length-ne [] h = absurd (h refl)
length-ne (x ∷ c) h = omega arith

shorter : (a b c : Text) → a ≡ b ++ c → c ≢ [] → length b < length a
shorter a b c e h = omega (arith, ap length e, length-append b c, length-ne c h)

-- The response's head: what comes before its end is incomplete, and it is complete, with the status
-- 200, whatever comes behind it.
pub record IsAccepting (parse : Text → Parsed) (head : Text) : Type 0 where
  pub head-partial : (a b : Text) → head ≡ a ++ b → b ≢ [] → parse a ≡ partial_head
  pub head-complete : (more : Text) → parse (head ++ more) ≡ complete (some 200)

module _ (nexthop : Io) (w : Wire nexthop) (read_buf : ReadBuf nexthop)
    (parse : Text → Parsed) where
  -- The last read gave the end of the head, at least a byte of it, and what is lost.
  abbrev pub CameWithEnd : Text → Text → nexthop.State → Type 0
  CameWithEnd rest lost s' =
      (s : nexthop.State) × (end : Text) × (end ≢ [])
      × (w.incoming s ≡ end ++ rest)
      × (read_buf s ≡ (ok (end ++ lost), s'))

  -- The loop ends with success, and bytes behind the head that came with its last part are lost.
  abbrev pub Accepts : Text → nexthop.State → Result Error (Unit {0}) × nexthop.State → Type 0
  Accepts rest s r =
      (s' : nexthop.State) × (lost : Text) × (r ≡ (ok tt, s'))
      × (rest ≡ lost ++ w.incoming s')
      × CameWithEnd rest lost s'
      × (w.sent s' ≡ w.sent s)

  module _ (rb : IsReadBuf nexthop w read_buf) (head rest : Text)
      (accepting : IsAccepting parse head) where
    read_response-step :
        (fuel b : ℕ) (buf bs : Text) (s s' : nexthop.State)
        → read_buf s ≡ (ok (b ∷ bs), s')
        → read_response nexthop read_buf parse (suc fuel) buf s
          ≡ check nexthop read_buf parse
              (parse (buf ++ b ∷ bs))
              (read_response nexthop read_buf parse fuel (buf ++ b ∷ bs))
              s'
    unfolding read_response
    read_response-step fuel b buf bs s s' ran = rw ran refl

    last_part :
        (buf part lost : Text) (s s' : nexthop.State)
        → length buf < length head
        → buf ++ part ≡ head ++ lost
        → read_buf s ≡ (ok part, s')
        → w.incoming s ≡ part ++ w.incoming s'
        → rest ≡ lost ++ w.incoming s'
        → CameWithEnd rest lost s'
    last_part buf part lost s s' short whole ran took behind =
        elim (cut_twice buf part head lost whole) [
          | inl (c, front, _) ↦ absurd (omega (arith, short, ap length front, length-append head c))
          | inr (c, _, more, back) ↦ (
            s,
            c,
            more,
            took
                ∙ ap (λ x. x ++ w.incoming s') back
                ∙ append_assoc c lost (w.incoming s')
                ∙ ap (◌++◌ c) (sym behind),
            ran ∙ ap (λ x. (ok x, s')) back,
          )
        ]

    read_response-Accepts :
        (fuel : ℕ) (buf : Text) (s : nexthop.State)
        → length (w.incoming s) < fuel
        → w.IsOpen s
        → buf ++ w.incoming s ≡ head ++ rest
        → length buf < length head
        → Accepts rest s (read_response nexthop read_buf parse fuel buf s)
    read_response-Accepts zero buf s h o e short = absurd (omega arith)
    read_response-Accepts (suc fuel) buf s h o e short =
        let more : w.incoming s ≢ [] = λ over. omega (
          arith,
          ap length e,
          ap length over,
          length-append buf (w.incoming s),
          length-append head rest,
        ) in
        let (b, bs, s', ran, o', quiet) = rb.read_buf-some s o more in
        let (taken, split, same) = rb.read_buf-Takes.at s s' (b ∷ bs) ran in
        let took : w.incoming s ≡ b ∷ bs ++ w.incoming s' =
          split ∙ ap (λ x. x ++ w.incoming s') same in
        let buf' : Text = buf ++ b ∷ bs in
        let e' : buf' ++ w.incoming s' ≡ head ++ rest =
          append_assoc buf (b ∷ bs) (w.incoming s') ∙ ap (◌++◌ buf) (sym took) ∙ e in
        let stepped = read_response-step fuel b buf bs s s' ran in
        elim (cut_twice buf' (w.incoming s') head rest e') [
          | inl (c, whole, behind) ↦
              let parsed : parse buf' ≡ complete (some 200) =
                ap parse whole ∙ accepting.head-complete c in
              (
                s',
                c,
                stepped ∙ rw parsed refl,
                behind,
                last_part buf (b ∷ bs) c s s' short whole ran took behind,
                quiet,
              )
          | inr (c, begun, left, _) ↦
              let parsed : parse buf' ≡ partial_head = accepting.head-partial buf' c begun left in
              let (s2, lost, ended, behind, last, silent) =
                read_response-Accepts fuel buf' s'
                  (omega (arith, ap length took, length-append bs (w.incoming s'))) o' e'
                  (shorter head buf' c begun left) in
              (s2, lost, stepped ∙ rw parsed ended, behind, last, silent ∙ quiet)
        ]

    -- Over an open connection that behaves as tokio documents, on which the head of a response with
    -- the status 200 comes next, in parts however cut, and with more fuel than bytes to come:
    -- `connect` sends exactly its request and succeeds. What comes behind the head stays to be read,
    -- but for those bytes of it that the last read gave together with the end of the head, of which
    -- it gave at least a byte: these are lost.
    pub connect-accepted :
        (t : AddrText) (fuel : ℕ) (e : Endpoint) (s : nexthop.State)
        → IsByteStream nexthop w
        → w.IsOpen s
        → w.incoming s ≡ head ++ rest
        → head ≢ []
        → length (head ++ rest) < fuel
        → (s' : nexthop.State) × (lost : Text) × (connect nexthop read_buf parse t fuel e s
            ≡ (ok tt, s'))
          × (rest ≡ lost ++ w.incoming s')
          × CameWithEnd rest lost s'
          × (w.sent s' ≡ w.sent s ++ request_text t e)
    unfolding connect
    connect-accepted t fuel e s stream o comes some_head enough =
        let (s1, ran, o1, left, wrote) =
          (stream.write_all-Talks (request_text t e)).at s (head ++ rest) o comes in
        let (s2, lost, ended, behind, last, silent) =
          read_response-Accepts fuel [] s1 (omega (arith, ap length left)) o1 left
            (length-ne head some_head) in
        (s2, lost, rw ran ended, behind, last, silent ∙ wrote)
