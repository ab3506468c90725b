-- ===== src/Cli/Tests.antt =====
-- The program, started without a file where only `HOME` is set.
use Prim.Native.String.{String}
use text.Mathlib.Text.{◌==◌}
use dandelion.Prelude.{ℕ, List, [], ◌∷◌, ◌+◌, none, ◌≡◌, ◌↔◌, refl, if◌then◌else◌}
use dandelion.Prelude.Exec.{ok, err}
use dandelion.Net.{Text}
use dandelion.Engine.Config.{Engine, load_config, new, add_socks5_acceptor, add_http_acceptor}
use dandelion.Engine.Modules.{engine_context}
use dandelion.Engine.Config.Sample.{adds, rune, compiler}
use dandelion.Engine.Config.Adds.{add_all}
use dandelion.Net.Coded.{coded}
use dandelion.Engine.Modules.{engine_modules}
use dandelion.Io.Pipe.{Ends}
use dandelion.Engine.Serve.Run.Sample.{piped}
use dandelion.Engine.Serve.Run.{Event, Parts, Task, State, run, accepted}
use dandelion.Cli.{System, running, main, load_config_from_env, read_code}
use dandelion.Cli.Starts.{Loaded, main-Loaded}

-- A file is its directory and its name.
abbrev system : System ℕ
system = record {
  Error = Unit {0};
  FilePath = Text × String;
  start_logger = λ w. (ok tt, w);
  raise_fd_limit = λ w. w;
  install_default = λ w. (ok tt, w);
  var = λ name. if name == "HOME" then ok (b'h' ∷ []) else err tt;
  join = λ dir path. (dir, path);
  read_to_string = λ file w. (ok file.0, w + 1);
}

abbrev events : List (ℕ × Event Ends (Unit {0}))
events = (0, accepted (record { incoming = 5 ∷ []; sent = [] })) ∷ []

abbrev parts : Parts rune
parts = piped rune

-- the state of an engine with the acceptors of the sample's script
abbrev state : State (Task rune parts) (Unit {0})
state =
    run rune parts
      (record {
        program = compiler.program 6 5;
        acceptors = (add_all coded adds (new {Object = ℕ})).1.acceptors;
        cache = none;
      })
      events

-- The configuration below `$HOME` is read, and its engine takes the connection.
runs : main rune compiler system parts events none 0 ≡ (running state, 2)
unfolding main load_config_from_env read_code load_config engine_context engine_modules new
    add_socks5_acceptor add_http_acceptor run
runs = refl

main-Loaded_example : (main rune compiler system parts events none 0 ≡ (running state, 2)) ↔ (
    (engine : Engine rune) × Loaded rune compiler system none 0 engine 2
    × (state ≡ run rune parts engine events))
main-Loaded_example = main-Loaded rune compiler system parts events none 0 2 state
