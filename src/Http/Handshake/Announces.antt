-- ===== src/Http/Handshake/Announces.antt =====
-- The endpoint of the handshake is that of all requests of the connection.
use dandelion.Prelude.{
  List, [], ◌∷◌, ◌++◌, Option, none, some, Bool, true, false, ◌≡◌, refl, sym, ◌∙◌, ap, subst, arith,
  All, if◌then◌else◌,
}
use dandelion.Prelude.Exec.{Result, ok, err}
use dandelion.Net.{AddrText}
use dandelion.Endpoint.{Endpoint, from_str}
use dandelion.Http.Request.{HttpTypes, Request, transform_proxy_request}
use dandelion.Http.Handler.{
  Error, State, connected, not_connected, Env, Connection, signal, connect_to, send_first,
  when_done, proxy_first, proxy_next, handle_connect, handle_proxy, handler, target_of, start,
}
use dandelion.Http.Handler.Faithful.{IsFor, Agrees, proxy_next-state, run, run-IsFaithful}
use dandelion.Http.Handshake.{first_of, waiting, handshake}

-- what a first request signals
abbrev announced :
    Bool → Result dandelion.Endpoint.Error Endpoint → Result Error Endpoint → List (Bool × Endpoint)
announced true (ok e) _ = (true, e) ∷ []
announced true (err _) _ = []
announced false _ (ok e) = (false, e) ∷ []
announced false _ (err _) = []

cons_inj : {A : Type 0} (a b : A) → ◌≡◌ {A = List A} (a ∷ []) (b ∷ []) → a ≡ b
cons_inj a b e = cc

first_of-ok :
    (o : Result dandelion.Endpoint.Error Endpoint) (target : Result Error Endpoint) (b : Bool)
    (e : Bool × Endpoint)
    → first_of (announced b o target) ≡ ok e
    → announced b o target ≡ e ∷ []
first_of-ok (ok x) target true e h = ap (λ z. z ∷ []) (cc h)
first_of-ok (err x) target true e h = absurd (cc h)
first_of-ok o (ok x) false e h = ap (λ z. z ∷ []) (cc h)
first_of-ok o (err x) false e h = absurd (cc h)

module _ (t : AddrText) (h : HttpTypes) where
  -- The signal is used.
  abbrev IsUsed : {Sender : Type 0} → State Sender → Type 0
  IsUsed (not_connected true) = ⊥
  IsUsed _ = Unit {0}

  module _ {Sender Response : Type 0} (env : Env Sender Response) (r : Request h) where
    -- With the signal used, a handler signals nothing, and the signal stays used.
    abbrev Stays : Connection h Sender → Connection h Sender → Type 0
    Stays c c' = (c'.signalled ≡ c.signalled) × IsUsed c'.state

    proxy_next-signalled :
        (e : Endpoint) (target : Result Error Endpoint) (c : Connection h Sender)
        → (proxy_next t h env r e target c).1.signalled ≡ c.signalled
    unfolding proxy_next
    proxy_next-signalled e target c = ground arith

    used-Stays :
        (b : Bool) (state : State Sender) (c : Connection h Sender)
        → c.state ≡ state
        → IsUsed state
        → Stays c (if b then handle_connect t h env r state c else handle_proxy t h env r state c).1
    unfolding handle_connect handle_proxy
    used-Stays b (not_connected true) c there u = absurd u
    used-Stays true (not_connected false) c there u = (refl, rw there tt)
    used-Stays true (connected e s) c there u = (refl, rw there tt)
    used-Stays false (not_connected false) c there u = (refl, rw there tt)
    used-Stays false (connected e s) c there u = (
      proxy_next-signalled e (target_of t h r) c,
      subst IsUsed (sym (proxy_next-state t h env r e (target_of t h r) c ∙ there)) tt,
    )

    send_first-Stays :
        (e : Endpoint) (sender : Sender) (o : Option (Request h)) (c : Connection h Sender)
        → IsUsed c.state
        → Stays c (send_first t h env r e sender o c).1
    send_first-Stays e sender none c u = (refl, u)
    send_first-Stays e sender (some r') c u = (refl, tt)

    when_done-Stays :
        (e : Endpoint) (o : Option (Option Sender)) (c : Connection h Sender)
        → IsUsed c.state
        → Stays c (when_done t h env r e o c).1
    when_done-Stays e none c u = (refl, u)
    when_done-Stays e (some none) c u = (refl, u)
    when_done-Stays e (some (some sender)) c u =
        send_first-Stays e sender (transform_proxy_request h r) c u

    abbrev Announces : List (Bool × Endpoint) → Connection h Sender → Type 0
    Announces signalled c = (c.signalled ≡ signalled) × IsUsed c.state

    connect_to-Announces :
        (o : Result dandelion.Endpoint.Error Endpoint) (target : Result Error Endpoint)
        (c : Connection h Sender)
        → env.receiver_lives ≡ true
        → Announces [] c
        → Announces (announced true o target) (connect_to t h env o c).1
    connect_to-Announces (err x) target c lives a = a
    connect_to-Announces (ok e) target c lives a = rw lives (ap (λ z. z ++ (true, e) ∷ []) a.0, a.1)

    proxy_first-Announces :
        (o : Result dandelion.Endpoint.Error Endpoint) (target : Result Error Endpoint)
        (c : Connection h Sender)
        → env.receiver_lives ≡ true
        → Announces [] c
        → Announces (announced false o target) (proxy_first t h env r target c).1
    unfolding proxy_first
    proxy_first-Announces o (err x) c lives a = a
    proxy_first-Announces o (ok e) c lives a =
        let (same, used) = when_done-Stays e env.done (signal h false e c) a.1 in
        rw lives (same ∙ ap (λ z. z ++ (false, e) ∷ []) a.0, used)

    first-Announces :
        (b : Bool) (c : Connection h Sender)
        → env.receiver_lives ≡ true
        → c.signalled ≡ []
        → Announces
            (announced b (from_str t (h.uri_to_string r.uri)) (target_of t h r))
            (if b
              then handle_connect t h env r (not_connected true) c
              else handle_proxy t h env r (not_connected true) c).1
    unfolding handle_connect handle_proxy
    first-Announces true c lives none_yet =
        connect_to-Announces (from_str t (h.uri_to_string r.uri)) (target_of t h r) _ lives
          (none_yet, tt)
    first-Announces false c lives none_yet =
        proxy_first-Announces (from_str t (h.uri_to_string r.uri)) (target_of t h r) _ lives
          (none_yet, tt)

  module _ {Sender Response : Type 0} where
    run-Stays :
        (rs : List (Env Sender Response × Request h)) (c : Connection h Sender)
        → IsUsed c.state
        → (run t h rs c).signalled ≡ c.signalled
    unfolding handler
    run-Stays [] c u = refl
    run-Stays ((env, r) ∷ rs) c u =
        let (same, used) = used-Stays env r r.is_connect c.state c refl u in
        run-Stays rs (handler t h env r c).1 used ∙ same

  -- A request that a connection may send on whose handshake gave `e`.
  abbrev pub IsOf : Bool × Endpoint → Request h × Request h → Type 0
  IsOf e r = (e.0 ≡ false) × IsFor t h e.1 r

  All-IsOf :
      (e : Endpoint) (rs : List (Request h × Request h))
      → All (IsFor t h e) rs
      → All (IsOf (false, e)) rs
  All-IsOf e [] all = tt
  All-IsOf e (r ∷ rs) all = ((refl, all.0), All-IsOf e rs all.1)

  Agrees-IsOf :
      {Sender : Type 0} (state : State Sender) (signalled : List (Bool × Endpoint))
      (forwarded : List (Request h × Request h)) (e : Bool × Endpoint)
      → Agrees t h state signalled forwarded
      → signalled ≡ e ∷ []
      → All (IsOf e) forwarded
  Agrees-IsOf (not_connected true) signalled forwarded e a one = subst (All (IsOf e)) (sym a.1) tt
  Agrees-IsOf (not_connected false) signalled forwarded e a one = subst (All (IsOf e)) (sym a.1) tt
  Agrees-IsOf (connected e' s) signalled forwarded e a one =
      let same : ◌≡◌ {A = Bool × Endpoint} (false, e') e = cons_inj _ _ (sym a.0 ∙ one) in
      subst (λ x. All (IsOf x) forwarded) same (All-IsOf e' forwarded a.1)

  module _ {Sender Response : Type 0} where
    -- Where the handshake gives an endpoint for the first request of a connection, then after any run
    -- of its requests that begins with this one, while the receiver lived for it, that endpoint was
    -- signalled and no other; each request that was sent on went as its transformation, and its URI,
    -- whatever its port, has a host that reads as that endpoint, or that does so with `:80` behind it
    -- where it reads as none; and none was sent on where the first request is a CONNECT.
    pub handshake-run :
        (env : Env Sender Response) (r : Request h) (rs : List (Env Sender Response × Request h))
        (e : Bool × Endpoint)
        → handshake t h (some r) ≡ ok e
        → env.receiver_lives ≡ true
        → ((run t h ((env, r) ∷ rs) start).signalled ≡ e ∷ [])
          × All (IsOf e) (run t h ((env, r) ∷ rs) start).forwarded
    unfolding handshake handler start
    handshake-run env r rs e gave lives =
        let (first, _) = first-Announces (waiting t h) r r.is_connect start refl refl in
        let announces : announced r.is_connect (from_str t (h.uri_to_string r.uri))
              (target_of t h r)
            ≡ e ∷ [] =
          first_of-ok _ _ r.is_connect e (ap first_of (sym first) ∙ gave) in
        let (signals, used) = first-Announces env r r.is_connect start lives refl in
        let one : (run t h ((env, r) ∷ rs) start).signalled ≡ e ∷ [] =
          run-Stays rs (handler t h env r start).1 used ∙ signals ∙ announces in
        (
          one,
          Agrees-IsOf (run t h ((env, r) ∷ rs) start).state _ _ e
              (run-IsFaithful t h ((env, r) ∷ rs)) one,
        )
