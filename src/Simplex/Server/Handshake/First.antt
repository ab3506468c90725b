-- ===== src/Simplex/Server/Handshake/First.antt =====
-- The handshake finds the first authorised request of a connection.
use dandelion.Prelude.{List, [], ◌∷◌, ◌++◌, ◌≡◌, ◌↔◌, ◌⊎◌, inl, inr, refl, subst, sym, ◌∙◌, ap, All}
use dandelion.Prelude.Exec.{Result, ok, err}
use dandelion.Net.{AddrText}
use dandelion.Endpoint.{Endpoint}
use dandelion.Simplex.Server.{Config, Requests, Error, Signal, authorise, fresh}
use dandelion.Simplex.Server.Authorised.{IsAuthorised, authorise-IsAuthorised}
use dandelion.Simplex.Server.Handshake.{serving, HandshakeError, selected, handshake}
use dandelion.Simplex.Server.Handshake.Steps.{IsRefused, authorised, authorised-state, refused-page}

module _ (t : AddrText) (rq : Requests) (config : Config) where
  judge_result :
      (r : rq.Request) (s : Signal) (x : Result Error Endpoint)
      → authorise t rq config r fresh ≡ (x, s)
      → IsRefused t rq config r ⊎ ((e : Endpoint) × IsAuthorised t rq config r e)
  judge_result r s (ok e) ran = inr (e, (authorise-IsAuthorised t rq config r fresh s e ran).1)
  judge_result r s (err x) ran =
      inl (λ e a. absurd (cc (ap (λ z. z.0) (sym ran ∙ authorised t rq config r fresh e a))))

  pub judge :
      (r : rq.Request) → IsRefused t rq config r ⊎ ((e : Endpoint) × IsAuthorised t rq config r e)
  judge r = judge_result r (authorise t rq config r fresh).1 (authorise t rq config r fresh).0 refl

  selected-refused :
      (r : rq.Request) (rs : List rq.Request)
      → IsRefused t rq config r
      → selected t rq config (r ∷ rs) fresh ≡ selected t rq config rs fresh
  unfolding selected
  selected-refused r rs refused =
      let page = refused-page t rq config serving r fresh refused in
      rw (selected, page) (ap (λ z. selected t rq config rs z.1) page)

  pub selected-authorised :
      (r : rq.Request) (rs : List rq.Request) (e : Endpoint)
      → IsAuthorised t rq config r e
      → selected t rq config (r ∷ rs) fresh ≡ ok (e, r, fresh, rs)
  unfolding selected
  selected-authorised r rs e a = rw (selected, authorised-state t rq config r fresh e a refl) refl

  -- what the handshake found, in the requests of the connection
  abbrev pub IsFirst : List rq.Request → Endpoint × rq.Request × Signal × List rq.Request → Type 0
  IsFirst rs (e, r, s, after) =
      (before : List rq.Request) × (rs ≡ before ++ r ∷ after)
      × (s ≡ fresh)
      × All (IsRefused t rq config) before
      × IsAuthorised t rq config r e

  ok_inj : {A : Type 0} (a b : A) → ◌≡◌ {A = Result HandshakeError A} (ok a) (ok b) → a ≡ b
  ok_inj a b e = cc

  selected-IsFirst :
      (rs : List rq.Request) (found : Endpoint × rq.Request × Signal × List rq.Request)
      → selected t rq config rs fresh ≡ ok found
      → IsFirst rs found
  selected-IsFirst [] found h = unfold selected in absurd (cc h)
  selected-IsFirst (r ∷ rs) found h = elim (judge r) [
    | inl refused ↦
        let (before, split, s, all, a) =
          selected-IsFirst rs found (sym (selected-refused r rs refused) ∙ h) in
        (r ∷ before, ap (◌∷◌ r) split, s, (refused, all), a)
    | inr (e, a) ↦
        subst (IsFirst (r ∷ rs)) (ok_inj _ _ (sym (selected-authorised r rs e a) ∙ h))
          ([], refl, refl, tt, a)
  ]

  IsFirst-selected :
      (before after : List rq.Request) (r : rq.Request) (e : Endpoint)
      → All (IsRefused t rq config) before
      → IsAuthorised t rq config r e
      → selected t rq config (before ++ r ∷ after) fresh ≡ ok (e, r, fresh, after)
  IsFirst-selected [] after r e all a = selected-authorised r after e a
  IsFirst-selected (x ∷ before) after r e all a =
      selected-refused x (before ++ r ∷ after) all.0 ∙ IsFirst-selected before after r e all.1 a

  pub found_first :
      (rs : List rq.Request) (found : Endpoint × rq.Request × Signal × List rq.Request)
      → IsFirst rs found
      → handshake t rq config rs ≡ ok found
  unfolding handshake
  found_first rs (e, r, s, after) (before, split, new, all, a) =
      rw (split, new) (IsFirst-selected before after r e all a)

  -- The handshake of a simplex server succeeds exactly at the first request of the connection that
  -- is authorised: each one before it is refused, the endpoint is the one that it names, and the
  -- signal is still fresh when it comes.
  pub handshake-IsFirst :
      (rs : List rq.Request) (found : Endpoint × rq.Request × Signal × List rq.Request)
      → (handshake t rq config rs ≡ ok found) ↔ IsFirst rs found
  handshake-IsFirst rs found =
      (λ h. selected-IsFirst rs found (unfold handshake in h), found_first rs found)
