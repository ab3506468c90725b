-- ===== src/Engine/Serve/Run.antt =====
-- core/src/config/engine/mod.rs, `handle_acceptors` and `run`: the acceptors take connections, in
-- whatever order these come, and each connection has a task of its own.
pub mod Tasks
pub mod Sample
use dandelion.Prelude.{ℕ, zero, suc, List, [], ◌∷◌, ◌++◌, Option, none, some}
use dandelion.Prelude.Exec.{Result, ok, err, Exec}
use dandelion.Net.{Text, AddrText}
use dandelion.Io.{Io}
use dandelion.Http.Request.{HttpTypes}
use dandelion.Http.Handshake.Conn.{Server, ConnError, handshake_on}
use dandelion.Socks5.Acceptor
use dandelion.Engine.Connect.{ConnectRequest}
use dandelion.Engine.Config.{AcceptorConfig, socks5, http, Rune, Engine}
use dandelion.Engine.Serve.{TaskError, handle}

-- What an acceptor's listener reports: a connection, or an error of `bind` or `accept`.
pub data Event (Stream E : Type 0) : Type 0 where
  accepted : Stream → Event Stream E
  failed : E → Event Stream E

-- `run` goes on, with the tasks that were spawned; or returned an error; or it panicked, since
-- `select_all` is documented to do on no futures.
pub data State (Task E : Type 0) : Type 0 where
  serving : List Task → State Task E
  returned : E → List Task → State Task E
  panicked : State Task E

-- The connections that are accepted, with hyper's server connection over one, the script's function
-- and tokio's `copy_bidirectional`.
pub record Parts (rune : Rune) : Type 1 where
  pub tcp : Io
  pub t : AddrText
  pub h : HttpTypes
  pub Sender : Type 0
  pub server : Server h Sender
  pub serve_connection : tcp.State → server.State
  pub C : Type 0
  pub Remote : Type 0
  pub call : Text → ConnectRequest → Option rune.Object → Exec rune.Error rune.World Remote
  pub copy_tcp : Remote → Exec C (tcp.State × rune.World) (ℕ × ℕ)
  pub copy_server : Remote → Exec C (server.State × rune.World) (ℕ × ℕ)

abbrev pub get_elem? : {A : Type 0} → List A → ℕ → Option A
get_elem? [] i = none
get_elem? (x ∷ xs) zero = some x
get_elem? (x ∷ xs) (suc i) = get_elem? xs i

module _ (rune : Rune) (parts : Parts rune) where
  open parts use {
    tcp, t, h, Sender, server, serve_connection, C, Remote, call, copy_tcp, copy_server,
  }

  -- A task: what it does, and the connection that it does it on.
  pub data Task : Type 0 where
    on_tcp :
        Exec (TaskError Acceptor.Error rune.Error C) (tcp.State × rune.World) (ℕ × ℕ)
        → tcp.State
        → Task
    on_server :
        Exec (TaskError (ConnError server.Error) rune.Error C) (server.State × rune.World) (ℕ × ℕ)
        → server.State
        → Task

  module _ (engine : Engine rune) where
    -- the task that is spawned, with the handshake of either kind
    unfoldable pub socks5_task : Text → tcp.State → Task
    socks5_task eval_fn io =
        on_tcp (handle rune engine call copy_tcp (Acceptor.handshake tcp) eval_fn) io

    unfoldable pub http_task : Text → tcp.State → Task
    http_task eval_fn io =
        on_server (handle rune engine call copy_server (handshake_on t h server) eval_fn)
          (serve_connection io)

    module _ {E : Type 0} where
      -- the body of the loop of `handle_acceptors`; `task` is the task over a handshake
      unfoldable pub handle_acceptors :
          (Text → tcp.State → Task) → Text → Event tcp.State E → List Task → State Task E
      handle_acceptors task eval_fn (accepted io) tasks = serving (tasks ++ task eval_fn io ∷ [])
      handle_acceptors task eval_fn (failed e) tasks = returned e tasks

      -- the `match` on the acceptor
      unfoldable pub listen : AcceptorConfig → Event tcp.State E → List Task → State Task E
      unfolding handle_acceptors socks5_task http_task
      listen (socks5 a eval_fn) = handle_acceptors socks5_task eval_fn
      listen (http a eval_fn) = handle_acceptors http_task eval_fn

      -- An event of the listener at a place of the list; no listener is at the other places.
      unfoldable pub step : List AcceptorConfig → ℕ × Event tcp.State E → List Task → State Task E
      unfolding listen
      step acceptors (i, event) tasks = elim (get_elem? acceptors i) [
        | some a ↦ listen a event tasks
        | none ↦ serving tasks
      ]

      -- The acceptors together: `select_all`, of the crate futures, is documented to return with the
      -- first of them that does.
      unfoldable pub serve :
          List AcceptorConfig → List (ℕ × Event tcp.State E) → List Task → State Task E
      unfolding step
      serve acceptors [] tasks = serving tasks
      serve acceptors (event ∷ events) tasks =
          let rest = serve acceptors events in
          elim (step acceptors event tasks) [
            | serving tasks' ↦ rest tasks'
            | returned e tasks' ↦ returned e tasks'
            | panicked ↦ panicked
          ]

      abbrev pub run_all : List AcceptorConfig → List (ℕ × Event tcp.State E) → State Task E
      unfolding serve
      run_all [] events = panicked
      run_all (a ∷ acceptors) events = serve (a ∷ acceptors) events []

      unfoldable pub run : List (ℕ × Event tcp.State E) → State Task E
      unfolding serve
      run events = run_all engine.acceptors events
