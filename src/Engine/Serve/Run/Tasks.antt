-- ===== src/Engine/Serve/Run/Tasks.antt =====
-- The tasks of an engine that runs.
use dandelion.Prelude.{ℕ, List, [], ◌∷◌, ◌++◌, none, some, ◌≡◌}
use dandelion.Net.{Text, SocketAddr}
use dandelion.Http.Handshake.Conn.{handshake_on}
use dandelion.Socks5.Acceptor
use dandelion.Engine.Config.{AcceptorConfig, socks5, http, Rune, Engine}
use dandelion.Engine.Serve.{handle}
use dandelion.Engine.Serve.Run.{
  Event, accepted, failed, Parts, Task, on_tcp, on_server, State, serving, returned, panicked,
  get_elem?, serve,
}

-- The task of a connection that an acceptor took: it is the engine's on that connection, with the
-- handshake of the acceptor's kind and the function that the acceptor names.
pub data IsTask (rune : Rune) (parts : Parts rune) (engine : Engine rune) (io : parts.tcp.State)
    : AcceptorConfig → Task rune parts → Type 0 where
  by_socks5 :
      (a : SocketAddr) (eval_fn : Text)
      → IsTask rune parts engine io (socks5 a eval_fn) (
          on_tcp
            (handle rune engine parts.call parts.copy_tcp (Acceptor.handshake parts.tcp) eval_fn)
            io)
  by_http :
      (a : SocketAddr) (eval_fn : Text)
      → IsTask rune parts engine io (http a eval_fn) (
          on_server
            (handle rune engine parts.call parts.copy_server
              (handshake_on parts.t parts.h parts.server)
              eval_fn)
            (parts.serve_connection io))

-- The tasks of a sequence of events without an error.
pub data Spawns (rune : Rune) (parts : Parts rune) (engine : Engine rune) {E : Type 0}
    (acceptors : List AcceptorConfig)
    : List (ℕ × Event parts.tcp.State E) → List (Task rune parts) → Type 0 where
  nothing : Spawns rune parts engine acceptors [] []
  task :
      (i : ℕ) (a : AcceptorConfig) (io : parts.tcp.State)
      (events : List (ℕ × Event parts.tcp.State E)) (t : Task rune parts)
      (tasks : List (Task rune parts))
      → get_elem? acceptors i ≡ some a
      → IsTask rune parts engine io a t
      → Spawns rune parts engine acceptors events tasks
      → Spawns rune parts engine acceptors ((i, accepted io) ∷ events) (t ∷ tasks)
  elsewhere :
      (i : ℕ) (event : Event parts.tcp.State E) (events : List (ℕ × Event parts.tcp.State E))
      (tasks : List (Task rune parts))
      → get_elem? acceptors i ≡ none
      → Spawns rune parts engine acceptors events tasks
      → Spawns rune parts engine acceptors ((i, event) ∷ events) tasks

module _ (rune : Rune) (parts : Parts rune) (engine : Engine rune) {E : Type 0}
    (acceptors : List AcceptorConfig) where
  -- How the events explain a state: no acceptor failed yet, or the first failure is returned.
  abbrev pub Explains :
      List (ℕ × Event parts.tcp.State E)
      → List (Task rune parts)
      → State (Task rune parts) E
      → Type 0
  Explains events before (serving tasks) =
      (new : List (Task rune parts)) × Spawns rune parts engine acceptors events new
      × (tasks ≡ before ++ new)
  Explains events before (returned e tasks) =
      (done : List (ℕ × Event parts.tcp.State E)) × (i : ℕ) × (a : AcceptorConfig) × (later : List
        (ℕ × Event parts.tcp.State E))
      × (new : List (Task rune parts)) × (events ≡ done ++ (i, failed e) ∷ later)
      × (get_elem? acceptors i ≡ some a)
      × Spawns rune parts engine acceptors done new
      × (tasks ≡ before ++ new)
  Explains events before panicked = ⊥

  -- what the loop makes of the state behind an event
  abbrev continued :
      List (ℕ × Event parts.tcp.State E) → State (Task rune parts) E → State (Task rune parts) E
  continued events s = elim s [
    | serving tasks ↦ serve rune parts engine acceptors events tasks
    | returned e tasks ↦ returned e tasks
    | panicked ↦ panicked
  ]
