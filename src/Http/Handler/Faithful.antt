-- ===== src/Http/Handler/Faithful.antt =====
-- The requests of a connection all go to the endpoint that was signalled.
use dandelion.Prelude.{
  ◌≤◌, List, [], ◌∷◌, ◌++◌, ◌⊎◌, Option, none, some, inl, inr, Bool, true, false, ◌≡◌, refl, sym,
  ◌∙◌, ap, subst, arith, length, All, All-append, eq_text_sound, if◌then◌else◌, Bool-cases,
}
use dandelion.Prelude.Exec.{Result, ok, err}
use dandelion.Io.{map_err}
use dandelion.Net.{Text, IpAddr, v4, v6, AddrText}
use dandelion.Endpoint.{Endpoint, addr, domain, from_str}
use dandelion.Http.Request.{HttpTypes, Request, transform_proxy_request}
use dandelion.Http.Handler.{
  eq_ip, eq_endpoint, State, not_connected, connected, Reply, Env, Connection, signal, forward,
  target_of, bad_endpoint, parsed, parse_host, connect_to, handle_connect, send_first, when_done,
  proxy_first, send_next, proxy_next, handle_proxy, handler, start,
}

eq_ip_sound : (a b : IpAddr) → eq_ip a b ≡ true → a ≡ b
eq_ip_sound (v4 a) (v4 b) h = ap v4 (eq_text_sound a b h)
eq_ip_sound (v6 a) (v6 b) h = ap v6 (eq_text_sound a b h)
eq_ip_sound (v4 a) (v6 b) h = absurd (ground arith)
eq_ip_sound (v6 a) (v4 b) h = absurd (ground arith)

eq_endpoint_sound : (a b : Endpoint) → eq_endpoint a b ≡ true → a ≡ b
eq_endpoint_sound (addr a) (addr b) h = ground (arith, eq_ip_sound a.ip b.ip)
eq_endpoint_sound (domain d p) (domain e q) h = ground (arith, eq_text_sound d e)
eq_endpoint_sound (addr a) (domain e q) h = absurd (ground arith)
eq_endpoint_sound (domain d p) (addr b) h = absurd (ground arith)

module _ (t : AddrText) (h : HttpTypes) where
  -- A host that reads as the endpoint, or that reads as none and does so with `:80` behind it.
  abbrev pub IsHost : Text → Endpoint → Type 0
  IsHost host e =
      (from_str t host ≡ ok e)
      ⊎ ((x : dandelion.Endpoint.Error) × (from_str t host ≡ err x)
          × (from_str t (host ++ 58 ∷ 56 ∷ 48 ∷ []) ≡ ok e))

  -- The endpoint is that of the host of the request's URI, whatever port the URI has.
  abbrev pub IsOfHost : Request h → Endpoint → Type 0
  IsOfHost r e = (host : Text) × (h.host_of r.uri ≡ some host) × IsHost host e

  map_err-ok :
      (r : Result dandelion.Endpoint.Error Endpoint) (e : Endpoint)
      → map_err bad_endpoint r ≡ ok e
      → r ≡ ok e
  map_err-ok (ok x) e same = cc
  map_err-ok (err x) e same = absurd (cc)

  parsed-IsHost :
      (r : Result dandelion.Endpoint.Error Endpoint) (host : Text) (e : Endpoint)
      → from_str t host ≡ r
      → parsed t h r host ≡ ok e
      → IsHost host e
  parsed-IsHost (ok x) host e reads same = inl (reads ∙ cc same)
  parsed-IsHost (err x) host e reads same = inr (x, reads, map_err-ok _ e same)

  parse_host-IsHost :
      (o : Option Text) (e : Endpoint)
      → parse_host t h o ≡ ok e
      → (host : Text) × (o ≡ some host) × IsHost host e
  parse_host-IsHost none e same = absurd (cc)
  parse_host-IsHost (some host) e same =
      (host, refl, parsed-IsHost (from_str t host) host e refl same)

  target_of-IsOfHost : (r : Request h) (e : Endpoint) → target_of t h r ≡ ok e → IsOfHost r e
  unfolding target_of
  target_of-IsOfHost r e same = parse_host-IsHost (h.host_of r.uri) e same

  -- A request that was sent on has the host of the endpoint `e` and went as its transformation.
  abbrev pub IsFor : Endpoint → Request h × Request h → Type 0
  IsFor e r = IsOfHost r.0 e × (transform_proxy_request h r.0 ≡ some r.1)

  -- What was done, by the state.
  abbrev pub Agrees :
      {Sender : Type 0}
      → State Sender
      → List (Bool × Endpoint)
      → List (Request h × Request h)
      → Type 0
  Agrees (not_connected true) signalled forwarded = (signalled ≡ []) × (forwarded ≡ [])
  Agrees (not_connected false) signalled forwarded = (length signalled ≤ 1) × (forwarded ≡ [])
  Agrees (connected e sender) signalled forwarded =
      (signalled ≡ (false, e) ∷ []) × All (IsFor e) forwarded

  abbrev pub IsFaithful : {Sender : Type 0} → Connection h Sender → Type 0
  IsFaithful c = Agrees c.state c.signalled c.forwarded

  module _ {Sender Response : Type 0} (env : Env Sender Response) (r : Request h) where
    connect_to-IsFaithful :
        (o : Result dandelion.Endpoint.Error Endpoint) (c : Connection h Sender)
        → c.signalled ≡ []
        → c.forwarded ≡ []
        → IsFaithful (connect_to t h env o (record c { state = not_connected false })).1
    connect_to-IsFaithful (err e) c a b = (rw a (omega arith), b)
    connect_to-IsFaithful (ok e) c a b = elim (Bool-cases env.receiver_lives) [
      | inl lives ↦ rw lives (rw a (omega arith), b)
      | inr gone ↦ rw gone (rw a (omega arith), b)
    ]

    handle_connect-IsFaithful :
        (s : State Sender) (c : Connection h Sender)
        → IsFaithful c
        → Agrees s c.signalled c.forwarded
        → IsFaithful (handle_connect t h env r s c).1
    unfolding handle_connect
    handle_connect-IsFaithful (not_connected true) c f a =
        connect_to-IsFaithful (from_str t (h.uri_to_string r.uri)) c a.0 a.1
    handle_connect-IsFaithful (not_connected false) c f a = f
    handle_connect-IsFaithful (connected e s) c f a = f

    send_first-IsFaithful :
        (e : Endpoint) (sender : Sender) (o : Option (Request h)) (c : Connection h Sender)
        → target_of t h r ≡ ok e
        → transform_proxy_request h r ≡ o
        → c.signalled ≡ []
        → c.forwarded ≡ []
        → IsFaithful
            (send_first t h env r e sender o
              (signal h false e (record c { state = not_connected false }))).1
    send_first-IsFaithful e sender none c g w a b = (rw a (omega arith), b)
    send_first-IsFaithful e sender (some r') c g w a b =
        (rw a refl, rw b ((target_of-IsOfHost r e g, w), tt))

    when_done-IsFaithful :
        (e : Endpoint) (o : Option (Option Sender)) (c : Connection h Sender)
        → target_of t h r ≡ ok e
        → c.signalled ≡ []
        → c.forwarded ≡ []
        → IsFaithful
            (when_done t h env r e o
              (signal h false e (record c { state = not_connected false }))).1
    when_done-IsFaithful e none c g a b = (rw a (omega arith), b)
    when_done-IsFaithful e (some none) c g a b = (rw a (omega arith), b)
    when_done-IsFaithful e (some (some sender)) c g a b =
        send_first-IsFaithful e sender (transform_proxy_request h r) c g refl a b

    proxy_first-IsFaithful :
        (o : Result dandelion.Http.Handler.Error Endpoint) (c : Connection h Sender)
        → target_of t h r ≡ o
        → c.signalled ≡ []
        → c.forwarded ≡ []
        → IsFaithful (proxy_first t h env r o (record c { state = not_connected false })).1
    unfolding proxy_first
    proxy_first-IsFaithful (err e) c g a b = (rw a (omega arith), b)
    proxy_first-IsFaithful (ok e) c g a b = elim (Bool-cases env.receiver_lives) [
      | inl lives ↦ rw lives (when_done-IsFaithful e env.done c g a b)
      | inr gone ↦ rw gone (rw a (omega arith), b)
    ]

    send_next-IsFaithful :
        (target : Endpoint) (sender : Sender) (o : Option (Request h)) (c : Connection h Sender)
        → target_of t h r ≡ ok target
        → transform_proxy_request h r ≡ o
        → Agrees (connected target sender) c.signalled c.forwarded
        → Agrees
            (connected target sender)
            (send_next t h env r o c).1.signalled
            (send_next t h env r o c).1.forwarded
    send_next-IsFaithful target sender none c g w a = a
    send_next-IsFaithful target sender (some r') c g w a = elim (Bool-cases env.is_ready) [
      | inl yes_ready ↦ rw yes_ready (
        a.0,
        All-append (IsFor target) c.forwarded ((r, r') ∷ []) a.1
            ((target_of-IsOfHost r target g, w), tt),
      )
      | inr not_ready ↦ rw not_ready a
    ]

    proxy_next-IsFaithful :
        (target : Endpoint) (sender : Sender) (o : Result dandelion.Http.Handler.Error Endpoint)
        (c : Connection h Sender)
        → target_of t h r ≡ o
        → Agrees (connected target sender) c.signalled c.forwarded
        → Agrees
            (connected target sender)
            (proxy_next t h env r target o c).1.signalled
            (proxy_next t h env r target o c).1.forwarded
    unfolding proxy_next
    proxy_next-IsFaithful target sender (err e) c g a = a
    proxy_next-IsFaithful target sender (ok e) c g a = elim (Bool-cases (eq_endpoint e target)) [
      | inl same ↦ rw same (
          send_next-IsFaithful target sender (transform_proxy_request h r) c
            (g ∙ ap ok (eq_endpoint_sound e target same)) refl a)
      | inr differs ↦ rw differs a
    ]

    pub proxy_next-state :
        (target : Endpoint) (o : Result dandelion.Http.Handler.Error Endpoint)
        (c : Connection h Sender)
        → (proxy_next t h env r target o c).1.state ≡ c.state
    unfolding proxy_next
    proxy_next-state target o c = ground arith

    handle_proxy-IsFaithful :
        (s : State Sender) (c : Connection h Sender)
        → c.state ≡ s
        → IsFaithful c
        → Agrees s c.signalled c.forwarded
        → IsFaithful (handle_proxy t h env r s c).1
    unfolding handle_proxy
    handle_proxy-IsFaithful (not_connected true) c k f a =
        proxy_first-IsFaithful (target_of t h r) c refl a.0 a.1
    handle_proxy-IsFaithful (not_connected false) c k f a = f
    handle_proxy-IsFaithful (connected e s) c k f a =
        subst
          (λ x.
            Agrees x (proxy_next t h env r e (target_of t h r) c).1.signalled
              (proxy_next t h env r e (target_of t h r) c).1.forwarded)
          (sym (proxy_next-state e (target_of t h r) c ∙ k))
          (proxy_next-IsFaithful e s (target_of t h r) c refl a)

    handler-IsFaithful :
        (c : Connection h Sender) → IsFaithful c → IsFaithful (handler t h env r c).1
    unfolding handler
    handler-IsFaithful c f = elim (Bool-cases r.is_connect) [
      | inl tunnel ↦
          subst
            (λ b.
              IsFaithful
                (if b
                  then handle_connect t h env r c.state c
                  else handle_proxy t h env r c.state c).1)
            (sym tunnel) (handle_connect-IsFaithful c.state c f f)
      | inr plain ↦
          subst
            (λ b.
              IsFaithful
                (if b
                  then handle_connect t h env r c.state c
                  else handle_proxy t h env r c.state c).1)
            (sym plain) (handle_proxy-IsFaithful c.state c refl f f)
    ]

  module _ {Sender Response : Type 0} where
    -- The requests of a connection, one after the other.
    abbrev pub run :
        List (Env Sender Response × Request h) → Connection h Sender → Connection h Sender
    run [] c = c
    run ((env, r) ∷ rs) c = run rs (handler t h env r c).1

    run-keeps :
        (rs : List (Env Sender Response × Request h)) (c : Connection h Sender)
        → IsFaithful c
        → IsFaithful (run rs c)
    run-keeps [] c f = f
    run-keeps ((env, r) ∷ rs) c f =
        run-keeps rs (handler t h env r c).1 (handler-IsFaithful env r c f)

    -- After any requests on a fresh connection, whatever becomes of each: at most one endpoint was
    -- signalled; nothing was sent on unless the state is connected; and then the endpoint signalled is
    -- that of the state, without the flag of a CONNECT, and each request that was sent on is the
    -- transformation of one whose URI has a host that reads as that endpoint, or that does so with
    -- `:80` behind it where it reads as none. A port of the URI is not looked at.
    pub run-IsFaithful : (rs : List (Env Sender Response × Request h)) → IsFaithful (run rs start)
    unfolding start
    run-IsFaithful rs = run-keeps rs start (refl, refl)
