-- ===== src/Http/Connector/Response.antt =====
-- The loop that reads the proxy's response.
use dandelion.Prelude.{
  ℕ, zero, suc, ◌<◌, [], ◌∷◌, ◌++◌, Option, none, some, true, ◌≡◌, ◌≢◌, ◌⊎◌, inl, inr, refl, sym,
  ap, ◌∙◌, subst, append_assoc, length, length-append, Bool-cases, arith,
}
use dandelion.Prelude.Exec.{Result, ok, err, Exec, continue}
use dandelion.Net.{Text, AddrText}
use dandelion.Endpoint.{Endpoint}
use dandelion.Io.{Io, Wire, IoError, map_err, ReportsSuccess}
use dandelion.Io.ReadBuf.{ReadBuf, IsReadBuf}
use dandelion.Http.Connector.{
  Parsed, invalid, partial_head, complete, Error, out_of_fuel, is_ok, request_text, check, next,
  read_response, connect,
}

module _ (nexthop : Io) (w : Wire nexthop) (read_buf : ReadBuf nexthop)
    (parse : Text → Parsed) where
  -- What the loop comes to: with its result, the state before it and the state behind it.
  abbrev pub Ends : Text → nexthop.State → Result Error (Unit {0}) × nexthop.State → Type 0
  Ends buf s (ok _, s') =
      (taken : Text) × (w.incoming s ≡ taken ++ w.incoming s')
      × ((parse (buf ++ taken) ≡ complete (some 200)) ⊎ (w.incoming s' ≡ []))
  Ends buf s (err e, s') = e ≢ out_of_fuel

  is_ok_lem : (code : Option ℕ) → is_ok code ≡ true → code ≡ some 200
  is_ok_lem (some code) h = ap some (ground arith)
  is_ok_lem none h = absurd (ground arith)

  -- a round that took `bs` before
  Ends-after :
      (buf bs : Text) (s s' : nexthop.State) (x : Result Error (Unit {0}) × nexthop.State)
      → w.incoming s ≡ bs ++ w.incoming s'
      → Ends (buf ++ bs) s' x
      → Ends buf s x
  Ends-after buf bs s s' (err e, s2) took h = h
  Ends-after buf bs s s' (ok u, s2) took (taken, split, met) = (
    bs ++ taken,
    took ∙ ap (◌++◌ bs) split ∙ sym (append_assoc bs taken (w.incoming s2)),
    subst (λ b. (parse b ≡ complete (some 200)) ⊎ (w.incoming s2 ≡ [])) (append_assoc buf bs taken)
        met,
  )

  -- a check of the bytes so far, where the next round keeps the claim
  check-Ends :
      (p : Parsed) (rest : Exec Error nexthop.State (Unit {0})) (buf bs : Text)
      (s s' : nexthop.State)
      → parse (buf ++ bs) ≡ p
      → w.incoming s ≡ bs ++ w.incoming s'
      → Ends (buf ++ bs) s' (rest s')
      → Ends buf s (check nexthop read_buf parse p rest s')
  check-Ends invalid rest buf bs s s' e took more = λ h. absurd (ground arith)
  check-Ends partial_head rest buf bs s s' e took more = Ends-after buf bs s s' (rest s') took more
  check-Ends (complete code) rest buf bs s s' e took more = elim (Bool-cases (is_ok code)) [
    | inl accepted ↦ rw accepted (bs, took, inl (e ∙ ap complete (is_ok_lem code accepted)))
    | inr rejected ↦ rw rejected (λ h. absurd (ground arith))
  ]

  module _ (rb : IsReadBuf nexthop w read_buf) where
    next-Ends :
        (round : Text → Exec Error nexthop.State (Unit {0})) (buf : Text) (s s' : nexthop.State)
        (r : Result IoError Text)
        → read_buf s ≡ (r, s')
        → ((b : ℕ) (bs : Text)
            → w.incoming s ≡ b ∷ bs ++ w.incoming s'
            → Ends (buf ++ b ∷ bs) s' (round (buf ++ b ∷ bs) s'))
        → Ends buf s (
            continue
              (λ bs. next nexthop read_buf parse buf bs round)
              (map_err dandelion.Http.Connector.Error.io r)
              s')
    next-Ends round buf s s' (err e) ran more = λ h. absurd (ground arith)
    next-Ends round buf s s' (ok []) ran more =
        let (taken, split, nothing) = rb.read_buf-Takes.at s s' [] ran in
        let over : w.incoming s ≡ [] = rb.read_buf-end s s' ran in
        let left : w.incoming s ≡ w.incoming s' = split ∙ ap (λ x. x ++ w.incoming s') nothing in
        ([], left, inr (sym left ∙ over))
    next-Ends round buf s s' (ok (b ∷ bs)) ran more =
        let (taken, split, same) = rb.read_buf-Takes.at s s' (b ∷ bs) ran in
        let took : w.incoming s ≡ b ∷ bs ++ w.incoming s' =
          split ∙ ap (λ x. x ++ w.incoming s') same in
        check-Ends (parse (buf ++ b ∷ bs)) (round (buf ++ b ∷ bs)) buf (b ∷ bs) s s' refl took
          (more b bs took)

    read_response-Ends :
        (fuel : ℕ) (buf : Text) (s : nexthop.State)
        → length (w.incoming s) < fuel
        → Ends buf s (read_response nexthop read_buf parse fuel buf s)
    unfolding read_response
    read_response-Ends zero buf s h = absurd (omega arith)
    read_response-Ends (suc fuel) buf s h =
        next-Ends (read_response nexthop read_buf parse fuel) buf s (read_buf s).1 (read_buf s).0
          refl
          λ b bs took.
            read_response-Ends fuel (buf ++ b ∷ bs) (read_buf s).1
              (omega (arith, ap length took, length-append bs (w.incoming (read_buf s).1)))

    connect-ends :
        (t : AddrText) (fuel : ℕ) (e : Endpoint) (s s1 : nexthop.State)
        (r : Result IoError (Unit {0}))
        → nexthop.write_all (request_text t e) s ≡ (r, s1)
        → (r ≡ ok tt → w.incoming s ≡ w.incoming s1)
        → length (w.incoming s) < fuel
        → Ends [] s (
            continue
              (λ _. read_response nexthop read_buf parse fuel [])
              (map_err dandelion.Http.Connector.Error.io r)
              s1)
    connect-ends t fuel e s s1 (err x) ran kept h = λ h. absurd (ground arith)
    connect-ends t fuel e s s1 (ok u) ran kept h =
        Ends-after [] [] s s1 _ (kept refl)
          (read_response-Ends fuel [] s1 (subst (λ x. length x < fuel) (kept refl) h))

    -- Where the operations report success only as tokio documents, and with more fuel than bytes to
    -- come: the loop ends by itself, and where `connect` succeeds, the bytes that it took parse as a
    -- complete response with the status 200, or the connection has come to its end.
    pub connect-Ends :
        (t : AddrText) (fuel : ℕ) (e : Endpoint) (s : nexthop.State)
        → ReportsSuccess nexthop w
        → length (w.incoming s) < fuel
        → Ends [] s (connect nexthop read_buf parse t fuel e s)
    unfolding connect
    connect-Ends t fuel e s reports h =
        let text : Text = request_text t e in
        connect-ends t fuel e s (nexthop.write_all text s).1 (nexthop.write_all text s).0 refl
          (λ done.
            let (taken, split, nothing) =
              (reports.write_all-Takes text).at s (nexthop.write_all text s).1 tt
                (ap (λ (x : Result IoError (Unit {0})). (x, (nexthop.write_all text s).1)) done) in
            split ∙ ap (λ x. x ++ w.incoming (nexthop.write_all text s).1) nothing)
          h
