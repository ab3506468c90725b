-- ===== src/Engine/Config/Adds.antt =====
-- The acceptors of a configuration script.
use mathlib.Core.Option
use dandelion.Prelude.{
  List, [], ◌∷◌, ◌++◌, Option, none, some, map, ◌≡◌, inl, inr, refl, sym, ◌∙◌, ap, subst, arith,
  append-nil, append_assoc, Option-cases, true,
}
use dandelion.Prelude.Exec.{Result, ok, Exec, ◌>>◌, pure, continue}
use dandelion.Io.Rules.{continue-result}
use dandelion.Net.{Text, AddrText}
use dandelion.Engine.Modules.{TakesNew, Apart}
use dandelion.Engine.Modules.Installed.{engine_items, engine_context-new}
use dandelion.Engine.Config.{
  AcceptorConfig, socks5, http, Config, Compiler, AddError, new, add_socks5_acceptor,
  add_http_acceptor, Rune, Engine, load_config,
}

-- A call of a script's: for a SOCKS5 or an HTTP acceptor, at an address, with a function's name.
pub data Add : Type 0 where
  add_socks5 add_http : Text → Text → Add

module _ (t : AddrText) where
  -- the acceptor that a call is for, if its address is one
  abbrev pub wanted : Add → Option AcceptorConfig
  wanted (add_socks5 addr f) = Option.map (λ a. socks5 a f) (t.parse_addr addr)
  wanted (add_http addr f) = Option.map (λ a. http a f) (t.parse_addr addr)

  module _ {Object : Type 0} where
    abbrev pub add : Add → Exec AddError (Config Object) (Unit {0})
    add (add_socks5 addr f) = add_socks5_acceptor t addr f
    add (add_http addr f) = add_http_acceptor t addr f

    -- the calls of a script that hands on their errors by `?`
    abbrev pub add_all : List Add → Exec AddError (Config Object) (Unit {0})
    add_all [] = pure tt
    add_all (a ∷ adds) = add a >> add_all adds

    add_lem :
        (a : Add) (c : Config Object)
        → ((add a c).0 ≡ ok tt)
        → (x : AcceptorConfig) × (wanted a ≡ some x)
          × (add a c ≡ (ok tt, record c { acceptors = c.acceptors ++ x ∷ [] }))
    unfolding add_socks5_acceptor add_http_acceptor
    add_lem (add_socks5 addr f) c e = elim (Option-cases (t.parse_addr addr)) [
      | inl bad ↦ absurd (ground arith)
      | inr (a, good) ↦ (socks5 a f, rw good refl, rw (add_socks5_acceptor, good) refl)
    ]
    add_lem (add_http addr f) c e = elim (Option-cases (t.parse_addr addr)) [
      | inl bad ↦ absurd (ground arith)
      | inr (a, good) ↦ (http a f, rw good refl, rw (add_http_acceptor, good) refl)
    ]

    add_all-wanted :
        (adds : List Add) (c : Config Object)
        → (add_all adds c).0 ≡ ok tt
        → (more : List AcceptorConfig) × (map wanted adds ≡ map (λ x. some x) more)
          × ((add_all adds c).1 ≡ record c { acceptors = c.acceptors ++ more })
    add_all-wanted [] c e =
        ([], refl, ap (λ z. record c { acceptors = z }) (sym (append-nil c.acceptors)))
    add_all-wanted (a ∷ adds) c e =
        let (_, first, rest) = continue-result (λ _. add_all adds) (add a c).0 (add a c).1 tt e in
        let (x, is_wanted, ran) = add_lem a c (first) in
        let (more, all, done) =
          add_all-wanted adds (record c { acceptors = c.acceptors ++ x ∷ [] })
            (subst (λ z. (add_all adds z).0 ≡ ok tt) (ap (λ z. z.1) ran) rest) in
        (
          x ∷ more,
          λ i. is_wanted i ∷ all i,
          ap
                (λ (z : Result AddError (Unit {0}) × Config Object).
                  (continue (λ _. add_all adds) z.0 z.1).1)
                ran
              ∙ done
              ∙ ap (λ z. record c { acceptors = z }) (append_assoc c.acceptors (x ∷ []) more),
        )

-- With a rune that takes what is new, whose default modules hold none of the engine's names, and a
-- script that builds without diagnostics wherever all of these are installed: where its function
-- `config` then runs, makes a configuration by calls for acceptors that all succeed, and returns it
-- without a cache, the engine is loaded, its acceptors are those of the calls, in their order, each
-- at the address that its text is of, and it has no cache.
pub load_config-wanted :
    (t : AddrText) (rune : Rune) (compiler : Compiler rune) (new_taken : TakesNew compiler.modules)
    (c : compiler.modules.Context) (adds : List Add) (code : Text) (sources : compiler.Sources)
    (unit : compiler.Compiled) (d : compiler.Diagnostics) (machine : compiler.Runtime)
    (v : rune.Value) (w w1 : rune.World)
    → compiler.modules.with_default_modules ≡ ok c
    → Apart engine_items (new_taken.installed c)
    → compiler.source code ≡ ok sources
    → ((c' : compiler.modules.Context)
        → new_taken.installed c' ≡ new_taken.installed c ++ engine_items
        → (compiler.build c' sources ≡ (ok unit, d)) × (compiler.runtime c' ≡ ok machine))
    → compiler.is_empty d ≡ true
    → rune.call_config (compiler.program machine unit) w ≡ (ok v, w1)
    → (add_all t adds (new {Object = rune.Object})).0 ≡ ok tt
    → rune.as_config v ≡ ok (ok (add_all t adds new).1)
    → (engine : Engine rune) × (load_config rune compiler code w ≡ (ok engine, w1))
      × (map (wanted t) adds ≡ map (λ x. some x) engine.acceptors)
      × (engine.cache ≡ none)
unfolding load_config new
load_config-wanted t rune compiler new_taken c adds code sources unit d machine v w w1 made apart
      read builds silent called succeed returned =
    let (more, all, done) = add_all-wanted t adds new succeed in
    let (c', installs, holds) = engine_context-new compiler.modules new_taken c made apart in
    let (built, ready) = builds c' holds in
    (
      record { program = compiler.program machine unit; acceptors = more; cache = none },
      rw (read, installs, built, silent, ready, called, returned, done) refl,
      all,
      refl,
    )
