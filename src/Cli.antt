-- ===== src/Cli.antt =====
-- core/src/bin/dandelion.rs: the program. The logger, the limit of open files, the provider of
-- cryptography, the environment and the files are parameters; so is what clap's parser made of the
-- arguments.
pub mod Starts
pub mod Serves
mod Tests
use Prim.Native.String.{String}
use dandelion.Prelude.{ℕ, List, Option, none, some, ◌≡◌}
use dandelion.Prelude.Exec.{Result, ok, err, Exec, continue, ◌>>=◌, ◌>>◌, pure}
use dandelion.Net.{Text}
use dandelion.Io.{lift, map_err}
use dandelion.Engine.Config.{Rune, Compiler, LoadError, Engine, load_config}
use dandelion.Engine.Serve.Run.{Event, Parts, Task, State, run}

pub record System (World : Type 0) : Type 1 where
  pub Error : Type 0
  pub FilePath : Type 0
  pub start_logger : Exec Error World (Unit {0})
  -- its result is only logged; on Windows it is nothing
  pub raise_fd_limit : World → World
  pub install_default : Exec Error World (Unit {0})
  pub var : String → Result Error Text
  pub join : Text → String → FilePath
  pub read_to_string : FilePath → Exec Error World Text

pub data MainError (Found E F : Type 0) : Type 0 where
  no_provider : E → MainError Found E F
  -- "Failed to load config file"
  unreadable : Found → E → MainError Found E F
  -- "Failed to load config from $SNAP_COMMON/config.rn or $HOME/.dandelion/config.rn"
  no_config : E → MainError Found E F
  not_loaded : LoadError F → MainError Found E F

-- `unwrap` of the logger panics; else `main` fails before it serves, or it is what `run` is.
pub data Ending (E T A : Type 0) : Type 0 where
  crashed : Ending E T A
  failed : E → Ending E T A
  running : State T A → Ending E T A

module _ (rune : Rune) (compiler : Compiler rune) (system : System rune.World) where
  open system use {FilePath, start_logger, raise_fd_limit, install_default, join, read_to_string}

  abbrev pub Failure : Type 0
  Failure = MainError FilePath system.Error rune.Error

  abbrev pub otherwise :
      {A : Type 0}
      → Exec system.Error rune.World A
      → Result system.Error A × rune.World
      → Result system.Error A × rune.World
  otherwise n (ok a, w) = (ok a, w)
  otherwise n (err e, w) = n w

  -- `or_else`
  abbrev pub or_else :
      {A : Type 0}
      → Exec system.Error rune.World A
      → Exec system.Error rune.World A
      → Exec system.Error rune.World A
  or_else m n w = otherwise n (m w)

  unfoldable pub load_config_from_env : String → String → Exec system.Error rune.World Text
  load_config_from_env env path = do dir ← λ w. (system.var env, w); read_to_string (join dir path)

  unfoldable pub read_code : Option FilePath → Exec Failure rune.World Text
  read_code (some path) = lift (unreadable path) (read_to_string path)
  read_code none = lift no_config (
      or_else (load_config_from_env "SNAP_COMMON" "./config.rn")
        (load_config_from_env "HOME" "./.dandelion/config.rn"))

  -- what follows the logger, up to `engine.run()`
  unfoldable pub load : Option FilePath → Exec Failure rune.World (Engine rune)
  load input = do
    limit ← λ w. (ok tt, raise_fd_limit w)
    provider ← lift no_provider install_default
    code ← read_code input
    lift not_loaded (load_config rune compiler code)

  module _ (parts : Parts rune) {A : Type 0} (events : List (ℕ × Event parts.tcp.State A)) where
    abbrev pub EndingOf : Type 0
    EndingOf = Ending Failure (Task rune parts) A

    abbrev pub ending : Result Failure (Engine rune) × rune.World → EndingOf × rune.World
    ending (ok engine, w) = (running (run rune parts engine events), w)
    ending (err e, w) = (failed e, w)

    abbrev pub started :
        Option FilePath → Result system.Error (Unit {0}) × rune.World → EndingOf × rune.World
    started input (ok tt, w) = ending (load input w)
    started input (err e, w) = (crashed, w)

    -- `events` is what the listeners report.
    unfoldable pub main : Option FilePath → rune.World → EndingOf × rune.World
    unfolding load
    main input w = started input (start_logger w)
