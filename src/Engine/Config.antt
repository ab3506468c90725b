-- ===== src/Engine/Config.antt =====
-- core/src/config/engine/mod.rs: the configuration that a script makes, and the engine that is loaded
-- from it. The language of the scripts, rune, is a parameter.
pub mod Adds
pub mod Sample
mod Tests
use dandelion.Prelude.{List, [], ◌∷◌, ◌++◌, Option, none, some, Bool, if◌then◌else◌}
use dandelion.Prelude.Exec.{Result, ok, Exec, ◌>>=◌, ◌>>◌, pure, ok_or}
use dandelion.Net.{Text, SocketAddr, AddrText}
use dandelion.Io.{map_err}
use dandelion.Engine.Modules.{Modules, engine_context}

-- the address to listen at, and the name of the script's function that connects
pub data AcceptorConfig : Type 0 where
  socks5 http : SocketAddr → Text → AcceptorConfig

-- `Config`, over rune's `Object`
pub record Config (Object : Type 0) : Type 0 where
  pub acceptors : List AcceptorConfig
  pub cache : Option Object

pub data AddError : Type 0 where
  bad_address : AddError

module _ {Object : Type 0} where
  unfoldable pub new : Config Object
  new = record { acceptors = []; cache = none }

  abbrev pub push : AcceptorConfig → Exec AddError (Config Object) (Unit {0})
  push a c = (ok tt, record c { acceptors = c.acceptors ++ a ∷ [] })

  unfoldable pub add_socks5_acceptor :
      AddrText → Text → Text → Exec AddError (Config Object) (Unit {0})
  add_socks5_acceptor t addr handler_name = do
    a ← ok_or (t.parse_addr addr) bad_address
    push (socks5 a handler_name)

  unfoldable pub add_http_acceptor :
      AddrText → Text → Text → Exec AddError (Config Object) (Unit {0})
  add_http_acceptor t addr handler_name = do
    a ← ok_or (t.parse_addr addr) bad_address
    push (http a handler_name)

-- Rune: `call_config` is `vm.async_call(["config"], ())`, and `as_config` is `rune::from_value` of
-- what it returns.
pub record Rune : Type 1 where
  pub World : Type 0
  pub Error : Type 0
  pub Program : Type 0
  pub Value : Type 0
  pub Object : Type 0
  pub call_config : Program → Exec Error World Value
  pub as_config : Value → Result Error (Result Error (Config Object))
  pub try_clone : Object → Option Object

-- Rune's compiler: `source` is `Source::memory` and `Sources::insert`, `build` is what is built with
-- the diagnostics that it left, `emit` writes them to the standard error, and `program` is a `Vm`.
pub record Compiler (rune : Rune) : Type 1 where
  pub modules : Modules rune.Error
  pub Sources : Type 0
  pub Diagnostics : Type 0
  pub Compiled : Type 0
  pub Runtime : Type 0
  pub source : Text → Result rune.Error Sources
  pub build : modules.Context → Sources → Result rune.Error Compiled × Diagnostics
  pub is_empty : Diagnostics → Bool
  pub emit : Diagnostics → Sources → Exec rune.Error rune.World (Unit {0})
  pub runtime : modules.Context → Result rune.Error Runtime
  pub program : Runtime → Compiled → rune.Program

-- `Engine`; the context is part of the program.
pub record Engine (rune : Rune) : Type 0 where
  pub program : rune.Program
  pub acceptors : List AcceptorConfig
  pub cache : Option rune.Object

pub data LoadError (E : Type 0) : Type 0 where
  rune_error : E → LoadError E
  not_cloneable : LoadError E

module _ (rune : Rune) where
  open rune use {World, Error, Program, Object, call_config, as_config}

  -- `Option::try_clone`; the outer option is `none` where it fails
  abbrev pub clone_cache : Option Object → Option (Option Object)
  clone_cache none = some none
  clone_cache (some o) = elim (rune.try_clone o) [ none ↦ none | some o' ↦ some (some o') ]

  -- `?` on a result, and the error of rune
  abbrev pub try : {A : Type 0} → Result Error A → Exec (LoadError Error) World A
  try r w = (map_err rune_error r, w)

  abbrev pub await : {A : Type 0} → Exec Error World A → Exec (LoadError Error) World A
  await m w = (map_err rune_error (m w).0, (m w).1)

  module _ (compiler : Compiler rune) where
    open compiler use {modules, Sources, Diagnostics, source, build, is_empty, emit, runtime}

    abbrev pub report : Diagnostics → Sources → Exec (LoadError Error) World (Unit {0})
    report d sources = if is_empty d then pure tt else await (emit d sources)

    unfoldable pub load_config : Text → Exec (LoadError Error) World (Engine rune)
    load_config code = do
      sources ← try (source code)
      context ← try (engine_context modules)
      report (build context sources).1 sources
      machine ← try (runtime context)
      unit ← try (build context sources).0
      let p = compiler.program machine unit
      value ← await (call_config p)
      returned ← try (as_config value)
      config ← try returned
      cloned ← ok_or (clone_cache config.cache) not_cloneable
      pure (record { program = p; acceptors = config.acceptors; cache = config.cache })
