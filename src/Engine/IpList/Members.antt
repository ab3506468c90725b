-- ===== src/Engine/IpList/Members.antt =====
-- What the tests on a list of networks answer.
use dandelion.Prelude.{List, [], ◌∷◌, ◌++◌, Bool, true, false, ◌≡◌, ◌↔◌, refl, ap, arith, All, ◌∙◌}
use dandelion.Prelude.Exec.{Result, ok, err}
use dandelion.Net.{AddrText}
use dandelion.Engine.IpList.{Networks, Error, contains_value, contains_any, or_rest}

module _ (n : Networks) (t : AddrText) (nets : List n.Network) where
  -- Where the first value that is in a network stands, all before it being texts of addresses in none.
  pub record FirstIn (vs : List n.Value) : Type 0 where
    pub before : List n.Value
    pub found : n.Value
    pub after : List n.Value
    pub split : vs ≡ before ++ found ∷ after
    pub none_before : All (λ v. contains_value n t nets (n.from_value v) ≡ ok false) before
    pub is_in : contains_value n t nets (n.from_value found) ≡ ok true

  later :
      (v : n.Value) (vs : List n.Value)
      → contains_value n t nets (n.from_value v) ≡ ok false
      → FirstIn vs
      → FirstIn (v ∷ vs)
  later v vs out f = record {
    before = v ∷ f.before;
    found = f.found;
    after = f.after;
    split = ap (◌∷◌ v) f.split;
    none_before = (out, f.none_before);
    is_in = f.is_in;
  }

  next_in :
      (v : n.Value) (vs : List n.Value) (r : Result Error Bool)
      → contains_value n t nets (n.from_value v) ≡ r
      → or_rest n t r (contains_any n t nets vs) ≡ ok true
      → (contains_any n t nets vs ≡ ok true → FirstIn vs)
      → FirstIn (v ∷ vs)
  next_in v vs (err x) e h ih = absurd (ground arith)
  next_in v vs (ok false) e h ih = later v vs e (ih h)
  next_in v vs (ok true) e h ih = record {
    before = [];
    found = v;
    after = vs;
    split = refl;
    none_before = tt;
    is_in = e;
  }

  contains_any-FirstIn : (vs : List n.Value) → contains_any n t nets vs ≡ ok true → FirstIn vs
  unfolding contains_any
  contains_any-FirstIn [] h = absurd (ground arith)
  contains_any-FirstIn (v ∷ vs) h =
      next_in v vs (contains_value n t nets (n.from_value v)) refl h (contains_any-FirstIn vs)

  found_in :
      (before : List n.Value) (v : n.Value) (after : List n.Value)
      → All (λ x. contains_value n t nets (n.from_value x) ≡ ok false) before
      → contains_value n t nets (n.from_value v) ≡ ok true
      → contains_any n t nets (before ++ v ∷ after) ≡ ok true
  unfolding contains_any
  found_in [] v after out h = rw h refl
  found_in (b ∷ before) v after (o, out) h = rw o (found_in before v after out h)

  -- `contains_any` answers yes exactly where a value is a text of an address in one of the networks and
  -- each value before it is one of an address in none; what stands behind it does not matter.
  pub contains_any_iff : (vs : List n.Value) → (contains_any n t nets vs ≡ ok true) ↔ FirstIn vs
  contains_any_iff vs = (
    contains_any-FirstIn vs,
    λ f.
        ap (contains_any n t nets) f.split
        ∙ found_in f.before f.found f.after f.none_before f.is_in,
  )
