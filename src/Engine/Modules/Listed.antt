-- ===== src/Engine/Modules/Listed.antt =====
-- Modules that are the lists of their items, for tests: what is there already is refused.
use dandelion.Prelude.{List, [], ◌∷◌, ◌++◌, Bool, false, ◌||◌, ◌≡◌, refl, arith, if◌then◌else◌}
use dandelion.Prelude.Exec.{ok, err}
use dandelion.Engine.Modules.{Item, has, Apart, Modules, TakesNew}

abbrev pub clash : List Item → List Item → Bool
clash [] seen = false
clash (i ∷ items) seen = has i seen || clash items seen

pub Apart-clash : (items seen : List Item) → Apart items seen → clash items seen ≡ false
Apart-clash [] seen apart = refl
Apart-clash (i ∷ items) seen apart = ground (arith, Apart-clash items seen apart.1)

module _ (defaults : List Item) where
  abbrev pub listed : Modules (Unit {0})
  listed = record {
    Module = List Item;
    Context = List Item;
    new = [];
    register = λ i m. if has i m then err tt else ok (m ++ i ∷ []);
    with_default_modules = ok defaults;
    install = λ m c. if clash m c then err tt else ok (c ++ m);
  }

  unfoldable pub listed-TakesNew : TakesNew listed
  listed-TakesNew = record {
    items = λ m. m;
    installed = λ c. c;
    items-new = refl;
    register-new = λ i m fresh. (m ++ i ∷ [], rw fresh refl, refl);
    install-new = λ m c apart. (c ++ m, rw (Apart-clash m c apart) refl, refl);
  }
