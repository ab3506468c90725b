-- ===== src/Engine/Serve/Tunnel.antt =====
-- The tasks of an HTTP acceptor whose client asks for a tunnel by CONNECT.
mod Tests
use dandelion.Prelude.{
  ℕ, List, [], ◌∷◌, ◌++◌, Option, none, some, Bool, true, false, ◌≡◌, refl, ◌∙◌, ap, if◌then◌else◌,
  sym,
}
use dandelion.Prelude.Exec.{Result, ok, err, Exec}
use dandelion.Io.{lift, map_err}
use dandelion.Net.{Text, AddrText}
use dandelion.Endpoint.{Endpoint, from_str}
use dandelion.Http.Request.{HttpTypes, Request}
use dandelion.Http.Handler.{Reply, empty, handler, handle_connect, start}
use dandelion.Http.Handshake.{no_request, handshake, waiting, first_of}
use dandelion.Http.Handshake.Conn.{
  Server, ConnError, not_first, hyper, handed_on, reply_to, future, first_request, handshake_on,
  Replies,
}
use dandelion.Http.Handshake.Conn.Tunnels.{handed, handshake_on-handed, future-finish}
use dandelion.Engine.Connect.{ConnectRequest}
use dandelion.Engine.Config.{Rune, Engine, clone_cache}
use dandelion.Engine.Serve.{TaskError, handshake_failed, at_endpoint, script, answer, copy, handle}

module _ (t : AddrText) (h : HttpTypes) {Sender : Type 0} (server : Server h Sender)
    (sent : server.State → List (Reply (Unit {0}))) (IsOpen : server.State → Type 0) (rune : Rune)
    {C Remote : Type 0}
    (copy_bidirectional : Remote → Exec C (server.State × rune.World) (ℕ × ℕ)) where
  abbrev pub Ending : Type 0
  Ending =
      Result (TaskError (ConnError server.Error) rune.Error C) (ℕ × ℕ) × (server.State × rune.World)

  -- What the client of a task sees: where its request names no endpoint, the script is not called;
  -- where the script fails, there is no reply; where it returns a connection, hyper's connection is
  -- polled to its end with the empty reply: where it fails, so does the task, and nothing is
  -- forwarded; else the reply is sent, and only then bytes are forwarded.
  pub data Tunnelled (s : server.State) (world : rune.World)
      (called : Endpoint → Result rune.Error Remote × rune.World)
      : Result dandelion.Endpoint.Error Endpoint → Ending → Type 0 where
    unparsed :
        (x : dandelion.Endpoint.Error) (s' : server.State)
        → sent s' ≡ sent s
        → Tunnelled s world called
            (err x)
            (err (handshake_failed (not_first no_request)), (s', world))
    refused :
        (e : Endpoint) (x : rune.Error) (world' : rune.World) (s' : server.State)
        → called e ≡ (err x, world')
        → sent s' ≡ sent s
        → Tunnelled s world called (ok e) (err (at_endpoint e (script x)), (s', world'))
    unanswered :
        (e : Endpoint) (remote : Remote) (world' : rune.World) (s' : server.State)
        (x : server.Error)
        → called e ≡ (ok remote, world')
        → server.finish empty (server.read_request s).1 ≡ (err x, s')
        → Tunnelled s world called (ok e) (err (at_endpoint e (answer (hyper x))), (s', world'))
    carried :
        (e : Endpoint) (remote : Remote) (world' : rune.World) (s' : server.State)
        → called e ≡ (ok remote, world')
        → sent s' ≡ sent s ++ empty ∷ []
        → Tunnelled s world called (ok e) (
          map_err (λ x. at_endpoint e (copy x)) (copy_bidirectional remote (s', world')).0,
          (copy_bidirectional remote (s', world')).1,
        )

  module _ (replies : Replies server sent IsOpen) (engine : Engine rune)
      (call : Text → ConnectRequest → Option rune.Object → Exec rune.Error rune.World Remote)
      (eval_fn : Text) where
    abbrev called :
        rune.World → Option rune.Object → Endpoint → Result rune.Error Remote × rune.World
    called world cache e = call eval_fn (record { endpoint = e }) cache world

    task : server.State × rune.World → Ending
    task = handle rune engine call copy_bidirectional (handshake_on t h server) eval_fn

    task_lem :
        (s s1 : server.State) (r : Request h) (e : Endpoint) (world : rune.World)
        (cache : Option rune.Object) (q : Result rune.Error Remote × rune.World)
        (p : Result server.Error (Unit {0}) × server.State)
        → s1 ≡ (server.read_request s).1
        → handshake_on t h server s ≡ (ok (e, future t h server true r), s1)
        → clone_cache rune engine.cache ≡ some cache
        → called world cache e ≡ q
        → sent s1 ≡ sent s
        → future t h server true r s1 ≡ lift hyper (server.finish empty) s1
        → server.finish empty s1 ≡ p
        → Tunnelled s world (called world cache) (ok e) (task (s, world))
    unfolding task handle
    task_lem s s1 r e world cache (err x, world') p at ran cloned fails quiet ends done =
        rw (handle, ran, cloned, fails) (refused e x world' s1 fails quiet)
    task_lem s s1 r e world cache (ok remote, world') (err x, s') at ran cloned connects quiet ends
          done =
        rw (handle, ran, cloned, connects, ends, done)
          (unanswered e remote world' s' x connects (ap (server.finish empty) (sym at) ∙ done))
    task_lem s s1 r e world cache (ok remote, world') (ok tt, s') at ran cloned connects quiet ends
          done =
        rw (handle, ran, cloned, connects, ends, done)
          (carried e remote world' s' connects
            (replies.sent-finish s1 s' done ∙ ap (λ z. z ++ empty ∷ []) quiet))

    -- On a connection that behaves as hyper documents, whose first request is a CONNECT, and with a
    -- cache that can be cloned: where the request names no endpoint, the task ends, the script is not
    -- called, and there is no reply; else the script's function is called with the endpoint that it
    -- names, and where it fails, there is no reply; where it returns a connection, hyper's connection
    -- is polled to its end with the empty reply: where this fails, the task fails with its error and
    -- forwards nothing; else the empty reply was sent, once, and before anything is forwarded.
    pub handle-Tunnelled :
        (s s1 : server.State) (r : Request h) (world : rune.World) (cache : Option rune.Object)
        → server.read_request s ≡ (some r, s1)
        → r.is_connect ≡ true
        → clone_cache rune engine.cache ≡ some cache
        → Tunnelled s world
            (λ e. call eval_fn (record { endpoint = e }) cache world)
            (from_str t (h.uri_to_string r.uri))
            (handle rune engine call copy_bidirectional
              (handshake_on t h server)
              eval_fn
              (s, world))
    unfolding task handle
    handle-Tunnelled s s1 r world cache read connects cloned =
        outcome (from_str t (h.uri_to_string r.uri)) refl
      where
        quiet : sent s1 ≡ sent s
        quiet = ap (λ z. sent z.1) (sym read) ∙ replies.sent-read_request s

        outcome :
            (o : Result dandelion.Endpoint.Error Endpoint)
            → from_str t (h.uri_to_string r.uri) ≡ o
            → Tunnelled s world (called world cache) o (task (s, world))
        outcome (err x) parsed =
            rw (handle, handshake_on-handed t h server s s1 r (err x) read connects parsed)
              (unparsed x s1 quiet)
        outcome (ok e) parsed =
            task_lem s s1 r e world cache (called world cache e) (server.finish empty s1)
              (ap (λ z. z.1) (sym read))
              (handshake_on-handed t h server s s1 r (ok e) read connects parsed) cloned refl quiet
              (future-finish t h server s1 r e connects parsed) refl
