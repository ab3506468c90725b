-- ===== src/Engine/Config/Sample.antt =====
-- A rune for tests, whose scripts want two acceptors.
use dandelion.Prelude.{ℕ, List, [], ◌∷◌, true, none}
use dandelion.Prelude.Exec.{ok}
use dandelion.Net.{Text}
use dandelion.Net.Coded.{coded}
use dandelion.Engine.Modules.{Item, ty, function, Apart, engine_modules}
use dandelion.Engine.Modules.Installed.{engine_items}
use dandelion.Engine.Modules.Listed.{listed}
use dandelion.Engine.Config.{Rune, Compiler, new}
use dandelion.Engine.Config.Adds.{Add, add_socks5, add_http, add_all}

-- Port 1080 of the address 127, and port 8080 of it.
abbrev pub adds : List Add
adds =
    add_socks5 (0 ∷ 0 ∷ 1080 ∷ 0 ∷ 127 ∷ []) (b'f' ∷ [])
    ∷ add_http (0 ∷ 0 ∷ 8080 ∷ 0 ∷ 127 ∷ []) (b'g' ∷ [])
    ∷ []

abbrev pub rune : Rune
rune = record {
  World = ℕ;
  Error = Unit {0};
  Program = Text;
  Value = ℕ;
  Object = ℕ;
  call_config = λ p w. (ok 7, 2);
  as_config = λ v. ok (ok (add_all coded adds new).1);
  try_clone = λ o. none;
}

-- What the default modules hold, for instance.
abbrev pub defaults : List Item
defaults = function "print" ∷ ty "String" ∷ []

abbrev pub compiler : Compiler rune
compiler = record {
  modules = listed defaults;
  Sources = Text;
  Diagnostics = Unit {0};
  Compiled = ℕ;
  Runtime = ℕ;
  source = λ code. ok code;
  build = λ c sources. (ok 5, tt);
  is_empty = λ d. true;
  emit = λ d sources w. (ok tt, w);
  runtime = λ c. ok 6;
  program = λ machine unit. [];
}

pub apart : Apart engine_items defaults
unfolding engine_modules
apart = assumption
