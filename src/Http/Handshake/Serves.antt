-- ===== src/Http/Handshake/Serves.antt =====
-- The future of the handshake keeps the handler from its panics.
use dandelion.Prelude.{
  List, [], ◌∷◌, Option, none, some, Bool, true, false, ◌≡◌, ◌≢◌, ◌⊎◌, inl, inr, inl, inr, refl,
  All, if◌then◌else◌, Bool-cases,
}
use dandelion.Prelude.Exec.{Result, ok, err}
use dandelion.Net.{AddrText}
use dandelion.Endpoint.{Endpoint, from_str}
use dandelion.Http.Request.{HttpTypes, Request, transform_proxy_request}
use dandelion.Http.Handler.{
  Error, State, connected, not_connected, Reply, relay, eq_endpoint, signal, forward, empty,
  relayed, failed, panicked, Env, Connection, connect_to, send_first, proxy_first, proxy_next,
  send_next, handle_connect, handle_proxy, handler, target_of, start,
}
use dandelion.Http.Handshake.{done_of, serve}

-- What a handler left that did not panic: where hyper goes on, the client of a server is there.
abbrev pub IsCalm :
    {h : HttpTypes} {Sender Response : Type 0} → Reply Response × Connection h Sender → Type 0
IsCalm {Sender} {Response} (relayed a, c) =
    (e : Endpoint) × (s : Sender) × (c.state ≡ connected e s)
IsCalm (panicked, c) = ⊥
IsCalm (_, c) = Unit {0}

module _ (t : AddrText) (h : HttpTypes) {Sender Response : Type 0} where
  relay-IsCalm :
      (answer : Option Response) (c : Connection h Sender) (e : Endpoint) (s : Sender)
      → c.state ≡ connected e s
      → IsCalm (relay answer, c)
  relay-IsCalm none c e s there = tt
  relay-IsCalm (some a) c e s there = (e, s, there)

  module _ (env : Env Sender Response) (r : Request h) where
    send_next-IsCalm :
        (o : Option (Request h)) (c : Connection h Sender) (e : Endpoint) (s : Sender)
        → c.state ≡ connected e s
        → IsCalm (send_next t h env r o c)
    send_next-IsCalm none c e s there = tt
    send_next-IsCalm (some r') c e s there = elim (Bool-cases env.is_ready) [
      | inl goes ↦ rw goes (relay-IsCalm env.answer (forward h (r, r') c) e s there)
      | inr stays ↦ rw stays tt
    ]

    proxy_next-IsCalm :
        (target : Result Error Endpoint) (c : Connection h Sender) (e : Endpoint) (s : Sender)
        → c.state ≡ connected e s
        → IsCalm (proxy_next t h env r e target c)
    unfolding proxy_next
    proxy_next-IsCalm (err x) c e s there = tt
    proxy_next-IsCalm (ok target) c e s there = elim (Bool-cases (eq_endpoint target e)) [
      | inl same ↦ rw same (send_next-IsCalm (transform_proxy_request h r) c e s there)
      | inr differs ↦ rw differs tt
    ]

    connected-IsCalm :
        (b : Bool) (state : State Sender) (c : Connection h Sender) (e : Endpoint) (s : Sender)
        → c.state ≡ connected e s
        → state ≡ connected e s
        → IsCalm (if b then handle_connect t h env r state c else handle_proxy t h env r state c)
    unfolding handle_connect handle_proxy
    connected-IsCalm true state c e s there same = rw same tt
    connected-IsCalm false state c e s there same =
        rw same (proxy_next-IsCalm (target_of t h r) c e s there)

    send_first-IsCalm :
        (e : Endpoint) (sender : Sender) (o : Option (Request h)) (c : Connection h Sender)
        → IsCalm (send_first t h env r e sender o c)
    send_first-IsCalm e sender none c = tt
    send_first-IsCalm e sender (some r') c = relay-IsCalm env.answer _ e sender refl

    proxy_first-IsCalm :
        (target : Result Error Endpoint) (sender : Sender) (c : Connection h Sender)
        → env.receiver_lives ≡ true
        → env.done ≡ some (some sender)
        → IsCalm (proxy_first t h env r target c)
    unfolding proxy_first
    proxy_first-IsCalm (err x) sender c lives done = tt
    proxy_first-IsCalm (ok e) sender c lives done =
        rw (lives, done)
          (send_first-IsCalm e sender (transform_proxy_request h r) (signal h false e c))

    connect_to-IsCalm :
        (o : Result dandelion.Endpoint.Error Endpoint) (c : Connection h Sender)
        → env.receiver_lives ≡ true
        → env.done ≡ some none
        → IsCalm (connect_to t h env o c)
    connect_to-IsCalm (err x) c lives done = tt
    connect_to-IsCalm (ok e) c lives done = rw (lives, done) tt

    first-IsCalm :
        (b : Bool) (sender : Sender) (c : Connection h Sender)
        → env.receiver_lives ≡ true
        → env.done ≡ done_of b sender
        → IsCalm (
            if b
            then handle_connect t h env r (not_connected true) c
            else handle_proxy t h env r (not_connected true) c)
    unfolding handle_connect handle_proxy done_of
    first-IsCalm true sender c lives done =
        connect_to-IsCalm (from_str t (h.uri_to_string r.uri)) _ lives done
    first-IsCalm false sender c lives done =
        proxy_first-IsCalm (target_of t h r) sender _ lives done

  -- What hyper documents of the requests that it hands on: none comes behind a CONNECT that was
  -- answered, or behind an error of the handler, so each but the first comes behind an answer.
  abbrev pub IsHandedOn : List (Env Sender Response × Request h) → Connection h Sender → Type 0
  IsHandedOn [] c = Unit {0}
  IsHandedOn ((env, r) ∷ rs) c =
      ((rs ≡ []) ⊎ ((a : Response) × ((handler t h env r c).0 ≡ relayed a)))
      × IsHandedOn rs (handler t h env r c).1

  calm_reply :
      (reply : Reply Response) (c : Connection h Sender) → IsCalm (reply, c) → reply ≢ panicked
  calm_reply panicked c calm = absurd calm
  calm_reply (relayed a) c calm = λ e. absurd (cc e)
  calm_reply empty c calm = λ e. absurd (cc e)
  calm_reply (failed x) c calm = λ e. absurd (cc e)

  calm_state :
      (reply : Reply Response) (c : Connection h Sender) (a : Response)
      → reply ≡ relayed a
      → IsCalm (reply, c)
      → (e : Endpoint) × (s : Sender) × (c.state ≡ connected e s)
  calm_state (relayed b) c a same calm = calm
  calm_state panicked c a same calm = absurd calm
  calm_state empty c a same calm = absurd (cc)
  calm_state (failed x) c a same calm = absurd (cc)

  follow-calm :
      (rs : List (Env Sender Response × Request h)) (reply : Reply Response)
      (c : Connection h Sender)
      → IsCalm (reply, c)
      → (rs ≡ []) ⊎ ((a : Response) × (reply ≡ relayed a))
      → ((e : Endpoint) (s : Sender)
          → c.state ≡ connected e s
          → All (λ x. x ≢ panicked) (serve t h rs c))
      → All (λ x. x ≢ panicked) (reply ∷ serve t h rs c)
  unfolding serve
  follow-calm rs reply c calm (inl at_end) go = rw at_end (calm_reply reply c calm, tt)
  follow-calm rs reply c calm (inr (a, answer)) go =
      let (e, s, there) = calm_state reply c a answer calm in
      (calm_reply reply c calm, go e s there)

  serve-connected :
      (rs : List (Env Sender Response × Request h)) (c : Connection h Sender) (e : Endpoint)
      (s : Sender)
      → c.state ≡ connected e s
      → IsHandedOn rs c
      → All (λ x. x ≢ panicked) (serve t h rs c)
  unfolding serve handler
  serve-connected [] c e s there on = tt
  serve-connected ((env, r) ∷ rs) c e s there on =
      follow-calm rs (handler t h env r c).0 (handler t h env r c).1
        (connected-IsCalm env r r.is_connect c.state c e s there there) on.0
        (λ e' s' there'. serve-connected rs (handler t h env r c).1 e' s' there' on.1)

  -- Where the future of the handshake sends its done signal for the first request of the connection,
  -- while the receiver of the endpoint lives, and hyper hands on requests as it documents, the
  -- handler panics on none of them, the first or a later one, whatever becomes of the later ones.
  pub serve-ne_panicked :
      (env : Env Sender Response) (r : Request h) (rs : List (Env Sender Response × Request h))
      (sender : Sender)
      → env.receiver_lives ≡ true
      → env.done ≡ done_of r.is_connect sender
      → IsHandedOn ((env, r) ∷ rs) start
      → All (λ x. x ≢ panicked) (serve t h ((env, r) ∷ rs) start)
  unfolding serve handler start
  serve-ne_panicked env r rs sender lives done on =
      follow-calm rs (handler t h env r start).0 (handler t h env r start).1
        (first-IsCalm env r r.is_connect sender start lives done) on.0
        (λ e s there. serve-connected rs (handler t h env r start).1 e s there on.1)
