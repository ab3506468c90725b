-- ===== src/Engine/Serve.antt =====
-- core/src/config/engine/mod.rs: what becomes of each connection that an acceptor takes, and the loop
-- that takes them. The script's function and tokio's `copy_bidirectional` are parameters.
pub mod Dialogue
pub mod Onward
pub mod Tunnel
pub mod Run
mod Tests
use mathlib.Core.Option
use dandelion.Prelude.{ℕ, zero, suc, List, [], ◌∷◌, ◌++◌, Option, none, some}
use dandelion.Prelude.Exec.{Result, ok, err, Exec, ◌>>=◌, pure, ok_or}
use dandelion.Net.{Text, SocketAddr}
use dandelion.Io.{map_err}
use dandelion.Endpoint.{Endpoint}
use dandelion.Engine.Connect.{ConnectRequest}
use dandelion.Engine.Config.{AcceptorConfig, socks5, http, Rune, Engine, clone_cache}

-- Why the forwarding to an endpoint failed.
pub data Reason (H E C : Type 0) : Type 0 where
  no_clone : Reason H E C
  script : E → Reason H E C
  answer : H → Reason H E C
  copy : C → Reason H E C

pub data TaskError (H E C : Type 0) : Type 0 where
  handshake_failed : H → TaskError H E C
  -- with the context "target endpoint"
  at_endpoint : Endpoint → Reason H E C → TaskError H E C

module _ {S W E A : Type 0} where
  -- what is done to the client's connection, and what the script does
  abbrev pub on_local : {F : Type 0} → (F → E) → Exec F S A → Exec E (S × W) A
  on_local f m (s, w) = (map_err f (m s).0, ((m s).1, w))

  abbrev pub on_world : {F : Type 0} → (F → E) → Exec F W A → Exec E (S × W) A
  on_world f m (s, w) = (map_err f (m w).0, (s, (m w).1))

module _ (rune : Rune) {S H C Remote : Type 0} where
  -- A task of `handle_acceptors`. `call` is `vm.async_call` of the function of that name with what
  -- `rune::from_value` and `??` make of its value.
  unfoldable pub handle :
      Engine rune
      → (Text → ConnectRequest → Option rune.Object → Exec rune.Error rune.World Remote)
      → (Remote → Exec C (S × rune.World) (ℕ × ℕ))
      → Exec H S (Endpoint × Exec H S (Unit {0}))
      → Text
      → Exec (TaskError H rune.Error C) (S × rune.World) (ℕ × ℕ)
  handle engine call copy_bidirectional handshake eval_fn = do
    (endpoint, fut) ← on_local handshake_failed handshake
    cache ← ok_or (clone_cache rune engine.cache) (at_endpoint endpoint no_clone)
    remote ←
        on_world (λ x. at_endpoint endpoint (script x))
          (call eval_fn (record { endpoint = endpoint }) cache)
    _ ← on_local (λ x. at_endpoint endpoint (answer x)) fut
    λ sw. (
      map_err (λ x. at_endpoint endpoint (copy x)) (copy_bidirectional remote sw).0,
      (copy_bidirectional remote sw).1,
    )
