-- ===== src/Engine/Serve/Dialogue.antt =====
-- The tasks of a SOCKS5 acceptor: what the client sees, by what the script does.
use dandelion.Prelude.{
  ℕ, ◌+◌, ◌*◌, ◌<◌, [], ◌∷◌, ◌++◌, Option, some, true, contains, ◌≡◌, refl, ◌∙◌, ap, length,
  append_assoc,
}
use dandelion.Prelude.Exec.{Result, ok, err, Exec}
use dandelion.Net.{Text}
use dandelion.Io.{Io, Wire, Talks, IsByteStream, map_err}
use dandelion.Endpoint.{Endpoint}
use dandelion.Engine.Connect.{ConnectRequest}
use dandelion.Engine.Config.{Rune, Engine, clone_cache}
use dandelion.Engine.Serve.{TaskError, at_endpoint, script, copy, handle}
use dandelion.Socks5.Acceptor.{handshake}
use dandelion.Socks5.Acceptor
use dandelion.Socks5.Acceptor.Accepts.{
  Target, IsTarget, address_type, address_bytes, asked, answer_bytes, handshake-accepts,
}

module _ (rune : Rune) (io : Io) (w : Wire io) {C Remote : Type 0}
    (copy_bidirectional : Remote → Exec C (io.State × rune.World) (ℕ × ℕ)) where
  abbrev pub Outcome : Type 0
  Outcome = Result (TaskError Acceptor.Error rune.Error C) (ℕ × ℕ) × (io.State × rune.World)

  abbrev pub forwarded : Endpoint → Result C (ℕ × ℕ) × (io.State × rune.World) → Outcome
  forwarded e (r, s) = (map_err (λ x. at_endpoint e (copy x)) r, s)

  -- The task of a client whose handshake is done: where the script fails, the client got the choice
  -- of the method and nothing else; where it returns a connection, the client gets the answer, and
  -- only then its bytes are forwarded, from the first one behind the request.
  pub data Served (e : Endpoint) (s : io.State) (rest reply : Text)
      : Result rune.Error Remote × rune.World → Outcome → Type 0 where
    refused :
        (x : rune.Error) (world : rune.World) (s' : io.State)
        → w.sent s' ≡ w.sent s ++ 5 ∷ 0 ∷ []
        → w.incoming s' ≡ rest
        → Served e s rest reply (err x, world) (err (at_endpoint e (script x)), (s', world))
    carried :
        (remote : Remote) (world : rune.World) (s' : io.State)
        → w.sent s' ≡ w.sent s ++ 5 ∷ 0 ∷ reply
        → w.incoming s' ≡ rest
        → Served e s rest reply
            (ok remote, world)
            (forwarded e (copy_bidirectional remote (s', world)))

  module _ (engine : Engine rune)
      (call : Text → ConnectRequest → Option rune.Object → Exec rune.Error rune.World Remote)
      (eval_fn : Text) where
    handle_lem :
        (m : Exec Acceptor.Error io.State (Endpoint × Exec Acceptor.Error io.State (Unit {0})))
        (fut : Exec Acceptor.Error io.State (Unit {0})) (e : Endpoint) (s s1 : io.State)
        (rest reply : Text) (world : rune.World) (cache : Option rune.Object)
        (r : Result rune.Error Remote × rune.World)
        → m s ≡ (ok (e, fut), s1)
        → clone_cache rune engine.cache ≡ some cache
        → call eval_fn (record { endpoint = e }) cache world ≡ r
        → w.IsOpen s1
        → w.incoming s1 ≡ rest
        → w.sent s1 ≡ w.sent s ++ 5 ∷ 0 ∷ []
        → Talks io w fut [] reply tt
        → Served e s rest reply r (handle rune engine call copy_bidirectional m eval_fn (s, world))
    unfolding handle
    handle_lem m fut e s s1 rest reply world cache (err x, world') ran cloned called o left out tf =
        rw (handle, ran, cloned, called) (refused x world' s1 out left)
    handle_lem m fut e s s1 rest reply world cache (ok remote, world') ran cloned called o left out
          tf =
        let (s2, ran2, o2, left2, out2) = tf.at s1 rest o left in
        rw (handle, ran, cloned, called, ran2)
          (carried remote world' s2
            (out2 ∙ ap (λ z. z ++ reply) out ∙ append_assoc (w.sent s) (5 ∷ 0 ∷ []) reply) left2)

    -- On a connection that is open and behaves as tokio documents, on which a greeting that offers
    -- "no authentication" and a well-formed CONNECT request come and then `rest`, with a cache that
    -- can be cloned, the script's function is called with the endpoint that the request names; where
    -- it fails, the client was sent `5 0` and no answer to its request; where it returns a
    -- connection, the answer was sent behind `5 0` before anything was forwarded, and the forwarding
    -- starts at `rest`.
    pub handle-Served :
        (methods : Text) (reserved hi lo : ℕ) (g : Target) (s : io.State) (rest : Text)
        (world : rune.World) (cache : Option rune.Object)
        → IsByteStream io w
        → 0 < length methods
        → contains methods 0 ≡ true
        → IsTarget g
        → hi < 256
        → lo < 256
        → w.IsOpen s
        → w.incoming s
          ≡ ((5 ∷ length methods ∷ methods)
              ++ 5 ∷ 1 ∷ reserved ∷ address_type g ∷ (address_bytes g ++ hi ∷ lo ∷ []))
            ++ rest
        → clone_cache rune engine.cache ≡ some cache
        → Served
            (asked g (hi * 256 + lo))
            s
            rest
            (answer_bytes g)
            (call eval_fn (record { endpoint = asked g (hi * 256 + lo) }) cache world)
            (handle rune engine call copy_bidirectional (handshake io) eval_fn (s, world))
    handle-Served methods reserved hi lo g s rest world cache stream some_method no_auth h hb lb o
          comes cloned =
        let (fut, tm, tf) =
          handshake-accepts io w stream methods reserved hi lo g some_method no_auth h hb lb in
        let (s1, ran, o1, left, out) = tm.at s rest o comes in
        handle_lem (handshake io) fut (asked g (hi * 256 + lo)) s s1 rest (answer_bytes g) world
          cache _ ran cloned refl o1 left out tf
