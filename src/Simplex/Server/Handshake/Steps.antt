-- ===== src/Simplex/Server/Handshake/Steps.antt =====
-- What one request of a connection does.
use dandelion.Prelude.{
  [], ◌∷◌, ◌++◌, none, true, false, ◌≡◌, ◌≢◌, refl, ◌∙◌, ap, arith, eq_text_refl,
}
use dandelion.Prelude.Exec.{Result, ok, err, continue}
use dandelion.Net.{AddrText}
use dandelion.Endpoint.{Endpoint}
use dandelion.Simplex.Server.{
  Config, Requests, Error, panicked, Signal, Env, authorise, handler, hide_error_handler, accept,
  hidden,
}
use dandelion.Simplex.Server.Authorised.{
  IsAuthorised, authorise-IsAuthorised, authorise-state, hidden_lem, upgrade-state,
}
use dandelion.Simplex.Server.Handshake.{serving}

module _ (t : AddrText) (rq : Requests) (config : Config) where
  abbrev pub IsRefused : rq.Request → Type 0
  IsRefused r = (e : Endpoint) → ¬ IsAuthorised t rq config r e

  pub authorised :
      (r : rq.Request) (s : Signal) (e : Endpoint)
      → IsAuthorised t rq config r e
      → authorise t rq config r s ≡ (ok e, s)
  unfolding authorise
  authorised r s e a =
      rw
        (
          a.of_path,
          eq_text_refl config.path,
          a.of_secret,
          eq_text_refl config.secret_header.1,
          a.of_upgrade,
          a.of_endpoint,
        )
        refl

  pub handler-accept :
      (env : Env) (r : rq.Request) (s : Signal) (e : Endpoint)
      → IsAuthorised t rq config r e
      → hide_error_handler t rq config env r s ≡ hidden t rq (accept t rq env r e s)
  unfolding hide_error_handler handler
  handler-accept env r s e a = rw (authorised r s e a) refl

  accept-state :
      (r : rq.Request) (s : Signal) (e : Endpoint)
      → s.is_present ≡ true
      → (accept t rq serving r e s).1
        ≡ record { is_present = false; signalled = s.signalled ++ e ∷ [] }
  unfolding accept
  accept-state r s e there = rw there (upgrade-state t rq config r _)

  accept-crash :
      (r : rq.Request) (s : Signal) (e : Endpoint)
      → s.is_present ≡ false
      → accept t rq serving r e s ≡ (err panicked, s)
  unfolding accept
  accept-crash r s e gone = rw gone refl

  pub authorised-state :
      (r : rq.Request) (s : Signal) (e : Endpoint)
      → IsAuthorised t rq config r e
      → s.is_present ≡ true
      → (hide_error_handler t rq config serving r s).1
        ≡ record { is_present = false; signalled = s.signalled ++ e ∷ [] }
  authorised-state r s e a there = rw (handler-accept serving r s e a) (
      hidden_lem t rq config (accept t rq serving r e s).0 (accept t rq serving r e s).1
      ∙ accept-state r s e there)

  pub authorised-crash :
      (r : rq.Request) (s : Signal) (e : Endpoint)
      → IsAuthorised t rq config r e
      → s.is_present ≡ false
      → hide_error_handler t rq config serving r s ≡ (err panicked, s)
  authorised-crash r s e a gone = rw (handler-accept serving r s e a, accept-crash r s e gone) refl

  authorise-ne_panicked :
      (r : rq.Request) (s s' : Signal) → authorise t rq config r s ≢ (err panicked, s')
  unfolding authorise
  authorise-ne_panicked r s s' h = ground arith

  hidden-err : (x : Error) (s : Signal) → x ≢ panicked → hidden t rq (err x, s) ≡ (ok none, s)
  hidden-err x s ne = ground arith

  hidden-page :
      (env : Env) (r : rq.Request) (s s' : Signal) (x : Result Error Endpoint)
      → authorise t rq config r s ≡ (x, s')
      → IsRefused r
      → hidden t rq (continue (accept t rq env r) x s') ≡ (ok none, s')
  hidden-page env r s s' (ok e) ran refused =
      absurd (refused e (authorise-IsAuthorised t rq config r s s' e ran).1)
  hidden-page env r s s' (err x) ran refused =
      hidden-err x s' (λ same. authorise-ne_panicked r s s' (ran ∙ ap (λ z. (err z, s')) same))

  pub refused-page :
      (env : Env) (r : rq.Request) (s : Signal)
      → IsRefused r
      → hide_error_handler t rq config env r s ≡ (ok none, s)
  unfolding hide_error_handler handler
  refused-page env r s refused =
      hidden-page env r s (authorise t rq config r s).1 (authorise t rq config r s).0 refl refused
      ∙ ap (λ z. (ok none, z)) (authorise-state t rq config r s)
