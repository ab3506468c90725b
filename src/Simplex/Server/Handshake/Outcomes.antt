-- ===== src/Simplex/Server/Handshake/Outcomes.antt =====
-- What becomes of the connection after its endpoint went out.
use dandelion.Prelude.{
  List, [], ◌∷◌, none, some, false, ◌≡◌, ◌↔◌, ◌⊎◌, inl, inr, refl, sym, ◌∙◌, ap, arith, All,
  Option-cases, Bool-cases,
}
use dandelion.Prelude.Exec.{ok}
use dandelion.Net.{Text, AddrText}
use dandelion.Endpoint.{Endpoint}
use dandelion.Simplex.Server.{
  Config, Requests, Signal, accept, upgrade_response, hidden, hide_error_handler, fresh, is_text,
}
use dandelion.Simplex.Server.Authorised.{IsAuthorised, is_text_sound}
use dandelion.Simplex.Server.Handshake.{serving, connection, upgraded, closed, crashed}
use dandelion.Simplex.Server.Handshake.Steps.{
  IsRefused, handler-accept, authorised-state, authorised-crash, refused-page,
}
use dandelion.Simplex.Server.Handshake.First.{judge}

module _ (t : AddrText) (rq : Requests) (config : Config) where
  -- the websocket's headers of an upgrade
  abbrev pub IsComplete : rq.Request → Type 0
  IsComplete r = (key : Text) × (rq.key r ≡ some key) × (rq.version r ≡ some (b'1' ∷ b'3' ∷ []))

  connection-refused :
      (r : rq.Request) (rs : List rq.Request) (s : Signal)
      → IsRefused t rq config r
      → connection t rq config (r ∷ rs) s ≡ connection t rq config rs s
  unfolding connection
  connection-refused r rs s refused =
      let page = refused-page t rq config serving r s refused in
      rw (connection, page) (ap (λ z. connection t rq config rs z.1) page)

  connection-again :
      (r : rq.Request) (rs : List rq.Request) (s : Signal) (e : Endpoint)
      → IsAuthorised t rq config r e
      → s.is_present ≡ false
      → connection t rq config (r ∷ rs) s ≡ crashed
  unfolding connection
  connection-again r rs s e a gone = rw (connection, authorised-crash t rq config r s e a gone) refl

  -- Once the signal is used, it crashes at the next authorised request.
  used-cases :
      (rs : List rq.Request) (s : Signal)
      → s.is_present ≡ false
      → ((connection t rq config rs s ≡ closed) × All (IsRefused t rq config) rs)
        ⊎ ((connection t rq config rs s ≡ crashed) × ¬ All (IsRefused t rq config) rs)
  used-cases [] s gone = inl (unfold connection in refl, tt)
  used-cases (r ∷ rs) s gone = elim (judge t rq config r) [
    | inl refused ↦ elim (used-cases rs s gone) [
      | inl (at_end, all) ↦ inl (connection-refused r rs s refused ∙ at_end, (refused, all))
      | inr (bad, more) ↦ inr (connection-refused r rs s refused ∙ bad, λ all. more all.1)
    ]
    | inr (e, a) ↦ inr (connection-again r rs s e a gone, λ all. all.0 e a)
  ]

  IsComplete-or_not : (r : rq.Request) → IsComplete r ⊎ ¬ IsComplete r
  IsComplete-or_not r = elim (Option-cases (rq.key r)) [
    | inl missing ↦ inr (λ (key, there, v). absurd (cc (sym missing ∙ there)))
    | inr (key, k) ↦ elim (Bool-cases (is_text (rq.version r) (b'1' ∷ b'3' ∷ []))) [
      | inl good ↦ inl (key, k, is_text_sound t rq config (rq.version r) (b'1' ∷ b'3' ∷ []) good)
      | inr bad ↦ inr (λ (other, there, v). absurd (ground (arith, bad, v)))
    ]
  ]

  accept-upgraded :
      (r : rq.Request) (e : Endpoint) (key : Text)
      → rq.key r ≡ some key
      → rq.version r ≡ some (b'1' ∷ b'3' ∷ [])
      → (hidden t rq (accept t rq serving r e fresh)).0 ≡ ok (some (rq.derive_accept_key key))
  unfolding accept upgrade_response
  accept-upgraded r e key k v = rw (k, v) refl

  accept_page :
      (r : rq.Request) (e : Endpoint)
      → ¬ IsComplete r
      → (hidden t rq (accept t rq serving r e fresh)).0 ≡ ok none
  unfolding accept upgrade_response
  accept_page r e incomplete = elim (Option-cases (rq.key r)) [
    | inl missing ↦ rw missing refl
    | inr (key, k) ↦ elim (Bool-cases (is_text (rq.version r) (b'1' ∷ b'3' ∷ []))) [
      | inl good ↦
          absurd
            (incomplete (key, k, is_text_sound t rq config (rq.version r) (b'1' ∷ b'3' ∷ []) good))
      | inr bad ↦ rw (k, bad) refl
    ]
  ]

  pub connection-upgraded :
      (r : rq.Request) (after : List rq.Request) (e : Endpoint) (key : Text)
      → IsAuthorised t rq config r e
      → rq.key r ≡ some key
      → rq.version r ≡ some (b'1' ∷ b'3' ∷ [])
      → connection t rq config (r ∷ after) fresh ≡ upgraded (rq.derive_accept_key key)
  unfolding connection
  connection-upgraded r after e key a k v =
      rw (connection, handler-accept t rq config serving r fresh e a, accept-upgraded r e key k v)
        refl

  connection-incomplete :
      (r : rq.Request) (after : List rq.Request) (e : Endpoint)
      → IsAuthorised t rq config r e
      → ¬ IsComplete r
      → connection t rq config (r ∷ after) fresh
        ≡ connection t rq config after (record { is_present = false; signalled = e ∷ [] })
  unfolding connection
  connection-incomplete r after e a incomplete =
      let page : (hide_error_handler t rq config serving r fresh).0 ≡ ok none =
        ap (λ z. z.0) (handler-accept t rq config serving r fresh e a)
        ∙ accept_page r e incomplete in
      rw (connection, page)
        (ap (λ z. connection t rq config after z) (authorised-state t rq config r fresh e a refl))

  -- After the endpoint of an authorised request went out, the handler panics exactly where that
  -- request has no key or not the version 13, so that it is answered with the page, and a later
  -- request of the connection is authorised too.
  pub connection-crashed :
      (r : rq.Request) (after : List rq.Request) (e : Endpoint)
      → IsAuthorised t rq config r e
      → (connection t rq config (r ∷ after) fresh ≡ crashed)
        ↔ ((¬ IsComplete r) × (¬ All (IsRefused t rq config) after))
  connection-crashed r after e a = elim (IsComplete-or_not r) [
    | inl (key, k, v) ↦ (
      λ h. absurd (cc (sym (connection-upgraded r after e key a k v) ∙ h)),
      λ (incomplete, more). absurd (incomplete (key, k, v)),
    )
    | inr incomplete ↦
        let on = connection-incomplete r after e a incomplete in
        elim (used-cases after (record { is_present = false; signalled = e ∷ [] }) refl) [
          | inl (at_end, all) ↦
              (λ h. absurd (cc (sym at_end ∙ sym on ∙ h)), λ (_, more). absurd (more all))
          | inr (bad, more) ↦ (λ h. (incomplete, more), λ _. on ∙ bad)
        ]
  ]
