-- ===== src/Cli/Serves.antt =====
-- The whole program, from its start to the tasks of the connections.
use dandelion.Prelude.{List, ◌++◌, true, ◌≡◌}
use dandelion.Prelude.Exec.{ok}
use dandelion.Net.{Text, AddrText}
use dandelion.Engine.Modules.{TakesNew, Apart}
use dandelion.Engine.Modules.Installed.{engine_items}
use dandelion.Engine.Config.{Rune, Compiler, Engine, new}
use dandelion.Engine.Config.Adds.{Add, add_all}

-- What a script's function `config` does by calls for acceptors that all succeed, without a cache,
-- over a rune that takes what is new: `c` is the context with the default modules, which hold none
-- of the engine's names.
pub record Configures (t : AddrText) (rune : Rune) (compiler : Compiler rune) (adds : List Add)
    (code : Text) (w w' : rune.World) : Type 1 where
  pub new_taken : TakesNew compiler.modules
  pub c : compiler.modules.Context
  pub default_modules : compiler.modules.with_default_modules ≡ ok c
  pub names_are_new : Apart engine_items (new_taken.installed c)
  pub sources : compiler.Sources
  pub reads : compiler.source code ≡ ok sources
  pub unit : compiler.Compiled
  pub diagnostics : compiler.Diagnostics
  pub machine : compiler.Runtime
  pub builds :
      (c' : compiler.modules.Context)
      → new_taken.installed c' ≡ new_taken.installed c ++ engine_items
      → (compiler.build c' sources ≡ (ok unit, diagnostics)) × (compiler.runtime c' ≡ ok machine)
  pub silent : compiler.is_empty diagnostics ≡ true
  pub value : rune.Value
  pub calls : rune.call_config (compiler.program machine unit) w ≡ (ok value, w')
  pub succeed : (add_all t adds (new {Object = rune.Object})).0 ≡ ok tt
  pub returns : rune.as_config value ≡ ok (ok (add_all t adds new).1)
