-- ===== src/Engine/Modules/Installed.antt =====
-- The modules of the engine are all installed.
use dandelion.Prelude.{
  List, [], ◌∷◌, ◌++◌, false, ◌||◌, ◌≡◌, refl, sym, ◌∙◌, ap, subst, arith, append_assoc, append-nil,
}
use dandelion.Prelude.Exec.{ok}
use dandelion.Engine.Modules.{
  Item, has, Apart, Modules, TakesNew, register_all, install_all, engine_context, engine_modules,
}

-- The items are new one after the other.
abbrev Fresh : List Item → List Item → Type 0
Fresh [] seen = Unit {0}
Fresh (i ∷ items) seen = (has i seen ≡ false) × Fresh items (seen ++ i ∷ [])

has-append : (i : Item) (a b : List Item) → has i (a ++ b) ≡ has i a || has i b
has-append i [] b = refl
has-append i (j ∷ a) b = ground (arith, has-append i a b)

Fresh-append : (items a b : List Item) → Apart items a → Fresh items b → Fresh items (a ++ b)
Fresh-append [] a b apart fresh = tt
Fresh-append (i ∷ items) a b apart fresh = (
  ground (arith, has-append i a b),
  subst (Fresh items) (sym (append_assoc a b (i ∷ [])))
      (Fresh-append items a (b ++ i ∷ []) apart.1 fresh.1),
)

Fresh-right : (items a b : List Item) → Fresh items (a ++ b) → Fresh items b
Fresh-right [] a b fresh = tt
Fresh-right (i ∷ items) a b fresh = (
  ground (arith, has-append i a b),
  Fresh-right items a (b ++ i ∷ []) (subst (Fresh items) (append_assoc a b (i ∷ [])) fresh.1),
)

Fresh-Apart : (items a b : List Item) → Fresh items (a ++ b) → Apart items a
Fresh-Apart [] a b fresh = tt
Fresh-Apart (i ∷ items) a b fresh = (
  ground (arith, has-append i a b),
  Fresh-Apart items a (b ++ i ∷ []) (subst (Fresh items) (append_assoc a b (i ∷ [])) fresh.1),
)

Fresh-split :
    (items more seen : List Item)
    → Fresh (items ++ more) seen
    → Fresh items seen × Fresh more (seen ++ items)
Fresh-split [] more seen fresh = (tt, subst (Fresh more) (sym (append-nil seen)) fresh)
Fresh-split (i ∷ items) more seen fresh =
    let (first, rest) = Fresh-split items more (seen ++ i ∷ []) fresh.1 in
    ((fresh.0, first), subst (Fresh more) (append_assoc seen (i ∷ []) items) rest)

abbrev pub concat : List (List Item) → List Item
concat [] = []
concat (items ∷ rest) = items ++ concat rest

-- all that the engine gives to a script
abbrev pub engine_items : List Item
engine_items = concat engine_modules

engine_items-Fresh : Fresh engine_items []
unfolding engine_modules
engine_items-Fresh = assumption

module _ {E : Type 0} (rune : Modules E) (new : TakesNew rune) where
  open new use {items, installed}

  register_all-new :
      (its : List Item) (m : rune.Module)
      → Fresh its (items m)
      → (m' : rune.Module) × (register_all rune its m ≡ ok m') × (items m' ≡ items m ++ its)
  unfolding register_all
  register_all-new [] m fresh = (m, refl, sym (append-nil (items m)))
  register_all-new (i ∷ its) m fresh =
      let (m1, taken, grown) = new.register-new i m fresh.0 in
      let (m2, all, e) = register_all-new its m1 (rw grown fresh.1) in
      (m2, rw taken all, e ∙ ap (λ z. z ++ its) grown ∙ append_assoc (items m) (i ∷ []) its)

  install_all-new :
      (mods : List (List Item)) (c : rune.Context)
      → Fresh (concat mods) (installed c)
      → (c' : rune.Context) × (install_all rune mods c ≡ ok c')
        × (installed c' ≡ installed c ++ concat mods)
  unfolding install_all
  install_all-new [] c fresh = (c, refl, sym (append-nil (installed c)))
  install_all-new (its ∷ mods) c fresh =
      let (first, rest) = Fresh-split its (concat mods) (installed c) fresh in
      let alone : Fresh its (installed c ++ []) = rw (append-nil (installed c)) first in
      let (m, made, holds) =
        register_all-new its rune.new (rw new.items-new (Fresh-right its (installed c) [] alone)) in
      let exactly : items m ≡ its = holds ∙ ap (λ z. z ++ its) new.items-new in
      let (c1, put, grown) =
        new.install-new m c (rw exactly (Fresh-Apart its (installed c) [] alone)) in
      let now : installed c1 ≡ installed c ++ its = grown ∙ ap (λ z. installed c ++ z) exactly in
      let (c2, all, e) = install_all-new mods c1 (rw now rest) in
      (
        c2,
        rw (made, put) all,
        e ∙ ap (λ z. z ++ concat mods) now ∙ append_assoc (installed c) its (concat mods),
      )

  pub engine_context-new :
      (c : rune.Context)
      → rune.with_default_modules ≡ ok c
      → Apart engine_items (installed c)
      → (c' : rune.Context) × (engine_context rune ≡ ok c')
        × (installed c' ≡ installed c ++ engine_items)
  unfolding engine_context
  engine_context-new c made apart = rw made (
      install_all-new engine_modules c (
        subst (Fresh engine_items) (append-nil (installed c))
          (Fresh-append engine_items (installed c) [] apart engine_items-Fresh)))
