-- ===== src/Tun/Lru.antt =====
-- The `LruCache` of the `lru` crate, which core/src/core/tun/resolver.rs uses without a bound. The
-- crate is not part of the repository: it is a parameter, with what it documents as hypotheses.
use dandelion.Prelude.{List, [], ◌∷◌, ◌++◌, Option, none, some, ◌≡◌}
use mathlib.Core.Logic.{ite}

pub record Lru (V K : Type 0) : Type 1 where
  pub Cache : Type 0
  pub unbounded : Cache
  pub get : V → Cache → Option K × Cache
  pub put : V → K → Cache → Cache
  pub pop_lru : Cache → Option (V × K) × Cache

-- What the documentation speaks of: the entries in the order of their last use, the least recent
-- one first.
module _ {V K : Type 0} (dv : Discrete V) where
  abbrev pub owner : V → List (V × K) → Option K
  owner v [] = none
  owner v ((u, k) ∷ q) = ite (dv u v) (some k) (owner v q)

  abbrev pub without : V → List (V × K) → List (V × K)
  without v [] = []
  without v ((u, k) ∷ q) = let rest = without v q in ite (dv u v) rest ((u, k) ∷ rest)

  abbrev pub use_entry : V → Option K → List (V × K) → List (V × K)
  use_entry v none q = q
  use_entry v (some k) q = without v q ++ (v, k) ∷ []

abbrev pub first : {V K : Type 0} → List (V × K) → Option (V × K)
first [] = none
first (e ∷ q) = some e

abbrev pub rest_of : {V K : Type 0} → List (V × K) → List (V × K)
rest_of [] = []
rest_of (e ∷ q) = q

-- The crate's documentation: `get` returns the key's entry and makes it the most recent one, `put`
-- stores an entry as the most recent one and replaces that of the same key, `pop_lru` takes the
-- least recent entry out.
pub record IsLru {V K : Type 0} (dv : Discrete V) (lru : Lru V K) : Type 0 where
  pub order : lru.Cache → List (V × K)
  pub order-unbounded : order lru.unbounded ≡ []
  pub get-owner : (v : V) (c : lru.Cache) → (lru.get v c).0 ≡ owner dv v (order c)
  pub order-get :
      (v : V) (c : lru.Cache)
      → order (lru.get v c).1 ≡ use_entry dv v (owner dv v (order c)) (order c)
  pub order-put :
      (v : V) (k : K) (c : lru.Cache)
      → order (lru.put v k c) ≡ without dv v (order c) ++ (v, k) ∷ []
  pub pop_lru-first : (c : lru.Cache) → (lru.pop_lru c).0 ≡ first (order c)
  pub order-pop_lru : (c : lru.Cache) → order (lru.pop_lru c).1 ≡ rest_of (order c)
