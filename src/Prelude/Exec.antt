-- ===== src/Prelude/Exec.antt =====
-- A body that awaits operations on a connection and may fail: what was done before a failure stays
-- done, so the state comes back beside the error too.
use mathlib.Core.Bool.{Bool, true, false}
use mathlib.Core.Option.{Option, none, some}

-- `anyhow::Result`, over the errors of one component.
pub data Result {ℓ κ} (E : Type ℓ) (A : Type κ) : Type (ℓ ⊔ κ) where
  ok : A → Result E A
  err : E → Result E A

abbrev pub Exec : Type 0 → Type 0 → Type 0 → Type 0
Exec E S A = S → Result E A × S

module _ {E S : Type 0} where
  abbrev pub continue : {A B : Type 0} → (A → Exec E S B) → Result E A → Exec E S B
  continue f (ok a) s = f a s
  continue f (err e) s = (err e, s)

  infixl 5 ◌>>=◌ ◌>>◌
  abbrev pub ◌>>=◌ : {A B : Type 0} → Exec E S A → (A → Exec E S B) → Exec E S B
  ◌>>=◌ m f s = continue f (m s).0 (m s).1

  abbrev pub ◌>>◌ : {A B : Type 0} → Exec E S A → Exec E S B → Exec E S B
  m >> n = m >>= λ _. n

  abbrev pub pure : {A : Type 0} → A → Exec E S A
  pure a s = (ok a, s)

  abbrev pub bail : {A : Type 0} → E → Exec E S A
  bail e s = (err e, s)

  -- `ensure!(b, e)`
  abbrev pub ensure : Bool → E → Exec E S (Unit {0})
  ensure true e s = (ok tt, s)
  ensure false e s = (err e, s)

  -- `o.ok_or(e)?`
  abbrev pub ok_or : {A : Type 0} → Option A → E → Exec E S A
  ok_or (some a) e s = (ok a, s)
  ok_or none e s = (err e, s)

-- `std::task::Poll`
pub data Poll {ℓ} (A : Type ℓ) : Type ℓ where
  ready : A → Poll A
  pending : Poll A
