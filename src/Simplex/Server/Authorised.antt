-- ===== src/Simplex/Server/Authorised.antt =====
-- Who can make the server connect.
use dandelion.Prelude.{
  List, [], ◌∷◌, ◌++◌, Option, none, some, true, false, ◌≡◌, ◌⊎◌, inl, inr, refl, subst, sym, ◌∙◌,
  ap, arith, eq_text, eq_text_sound,
}
use dandelion.Prelude.Exec.{Result, ok, err, continue}
use dandelion.Net.{Text, AddrText}
use dandelion.Endpoint.{Endpoint}
use dandelion.Simplex.Server.{
  Config, Requests, Error, Signal, Env, is_text, str_of, endpoint_of, authorise, handler,
  hide_error_handler, upgrade_response, accept, fresh, hidden,
}

module _ (t : AddrText) (rq : Requests) (config : Config) where
  -- A request for the path with the secret that asks for an upgrade and names the endpoint `e`.
  pub record IsAuthorised (r : rq.Request) (e : Endpoint) : Type 0 where
    pub of_path : rq.path r ≡ config.path
    pub of_secret : str_of t rq (rq.header config.secret_header.0 r) ≡ some config.secret_header.1
    pub of_upgrade : rq.is_upgrade_request r ≡ true
    pub of_endpoint : endpoint_of t rq r ≡ some e

  pub is_text_sound : (o : Option Text) (a : Text) → is_text o a ≡ true → o ≡ some a
  is_text_sound (some b) a h = ap some (eq_text_sound b a h)
  is_text_sound none a h = absurd (ground arith)

  authorise_lem :
      (r : rq.Request) (s s' : Signal) (e : Endpoint)
      → authorise t rq config r s ≡ (ok e, s')
      → (s ≡ s')
        × (eq_text (rq.path r) config.path ≡ true)
        × (is_text (str_of t rq (rq.header config.secret_header.0 r)) config.secret_header.1 ≡ true)
        × (rq.is_upgrade_request r ≡ true)
        × (endpoint_of t rq r ≡ some e)
  unfolding authorise
  authorise_lem r s s' e h = ground arith

  pub authorise-IsAuthorised :
      (r : rq.Request) (s s' : Signal) (e : Endpoint)
      → authorise t rq config r s ≡ (ok e, s')
      → (s ≡ s') × IsAuthorised r e
  authorise-IsAuthorised r s s' e h =
      let (same, at_path, secret, upgrade, endpoint) = authorise_lem r s s' e h in
      (
        same,
        record {
          of_path = eq_text_sound (rq.path r) config.path at_path;
          of_secret = is_text_sound _ _ secret;
          of_upgrade = upgrade;
          of_endpoint = endpoint;
        },
      )

  -- What a request does to the signal.
  data Used (r : rq.Request) (s : Signal) : Signal → Type 0 where
    unused : Used r s s
    dropped : s.is_present ≡ true → Used r s (record s { is_present = false })
    used :
        (e : Endpoint)
        → s.is_present ≡ true
        → IsAuthorised r e
        → Used r s (record { is_present = false; signalled = s.signalled ++ e ∷ [] })

  pub upgrade-state : (r : rq.Request) (s : Signal) → (upgrade_response t rq r s).1 ≡ s
  unfolding upgrade_response
  upgrade-state r s = ground arith

  accept_lem :
      (env : Env) (r : rq.Request) (e : Endpoint) (s : Signal)
      → ((accept t rq env r e s).1 ≡ s)
        ⊎ ((s.is_present ≡ true)
            × (((accept t rq env r e s).1 ≡ record s { is_present = false })
                ⊎ ((accept t rq env r e s).1
                    ≡ record { is_present = false; signalled = s.signalled ++ e ∷ [] })))
  unfolding accept
  accept_lem env r e s =
      ground
        (arith, upgrade-state r (record { is_present = false; signalled = s.signalled ++ e ∷ [] }))

  accept-Used :
      (env : Env) (r : rq.Request) (e : Endpoint) (s : Signal)
      → IsAuthorised r e
      → Used r s (accept t rq env r e s).1
  accept-Used env r e s a = elim (accept_lem env r e s) [
    | inl same ↦ subst (Used r s) (sym same) unused
    | inr (there, inl taken) ↦ subst (Used r s) (sym taken) (dropped there)
    | inr (there, inr sent) ↦ subst (Used r s) (sym sent) (used e there a)
  ]

  pub authorise-state : (r : rq.Request) (s : Signal) → (authorise t rq config r s).1 ≡ s
  unfolding authorise
  authorise-state r s = ground arith

  continue-Used :
      (env : Env) (r : rq.Request) (s : Signal) (x : Result Error Endpoint) (s' : Signal)
      → authorise t rq config r s ≡ (x, s')
      → Used r s (continue (accept t rq env r) x s').1
  continue-Used env r s (ok e) s' h =
      let (same, a) = authorise-IsAuthorised r s s' e h in
      subst (λ z. Used r s (accept t rq env r e z).1) same (accept-Used env r e s a)
  continue-Used env r s (err x) s' h =
      subst (Used r s) (sym (authorise-state r s) ∙ ap (λ z. z.1) h) unused

  handler-Used :
      (env : Env) (r : rq.Request) (s : Signal) → Used r s (handler t rq config env r s).1
  unfolding handler
  handler-Used env r s =
      continue-Used env r s (authorise t rq config r s).0 (authorise t rq config r s).1 refl

  -- The requests of a connection, one after the other.
  abbrev pub run : List (Env × rq.Request) → Signal → Signal
  run [] s = s
  run ((env, r) ∷ rs) s = run rs (hide_error_handler t rq config env r s).1

  -- Nothing was signalled, or the endpoint of one authorised request.
  abbrev pub IsGuarded : Signal → Type 0
  IsGuarded s =
      (s.signalled ≡ [])
      ⊎ ((s.is_present ≡ false)
          × ((r : rq.Request) × (e : Endpoint) × IsAuthorised r e × (s.signalled ≡ e ∷ [])))

  Used-IsGuarded : (r : rq.Request) (s s' : Signal) → Used r s s' → IsGuarded s → IsGuarded s'
  Used-IsGuarded r s _ unused g = g
  Used-IsGuarded r s _ (dropped there) (inl none_yet) = inl none_yet
  Used-IsGuarded r s _ (dropped there) (inr g) = absurd (ground (arith, g.0))
  Used-IsGuarded r s _ (used e there a) (inl none_yet) =
      inr (refl, (r, e, a, ap (λ z. z ++ e ∷ []) none_yet))
  Used-IsGuarded r s _ (used e there a) (inr g) = absurd (ground (arith, g.0))

  pub hidden_lem : (x : Result Error Text) (s : Signal) → (hidden t rq (x, s)).1 ≡ s
  hidden_lem (ok k) s = refl
  hidden_lem (err e) s = ground arith

  hidden-state :
      (env : Env) (r : rq.Request) (s : Signal)
      → (hide_error_handler t rq config env r s).1 ≡ (handler t rq config env r s).1
  unfolding hide_error_handler
  hidden-state env r s = hidden_lem (handler t rq config env r s).0 (handler t rq config env r s).1

  run-keeps : (rs : List (Env × rq.Request)) (s : Signal) → IsGuarded s → IsGuarded (run rs s)
  run-keeps [] s g = g
  run-keeps ((env, r) ∷ rs) s g = run-keeps rs (hide_error_handler t rq config env r s).1 (
      subst IsGuarded (sym (hidden-state env r s))
        (Used-IsGuarded r s (handler t rq config env r s).1 (handler-Used env r s) g))

  -- After any requests on a connection whose signal was fresh, whatever becomes of each: no endpoint
  -- was signalled, or exactly one, and then it is the one that a request for the configured path,
  -- with the configured secret, that asks for an upgrade names, and the signal is used.
  pub run-IsGuarded : (rs : List (Env × rq.Request)) → IsGuarded (run rs fresh)
  run-IsGuarded rs = run-keeps rs fresh (inl refl)
