-- ===== src/Tun/Pool.antt =====
-- `PoolWithBidirectionalMapping` of core/src/core/tun/resolver.rs: names get addresses from a pool,
-- and when the pool is empty the least recently used address is taken from its name.
pub mod Entries
pub mod Recycling
pub mod Refines
pub mod Queue
pub mod Laws
pub mod Bijection
pub mod Holds
pub mod Retains
pub mod Keeps
pub mod Invariant
use dandelion.Prelude.{List, [], ◌∷◌, Option, none, some}
use mathlib.Core.Logic.{ite}
use dandelion.Tun.Lru.{Lru}

-- `HashMap`, by what `get` returns for each key.
abbrev pub Map : Type 0 → Type 0 → Type 0
Map K V = K → Option V

module _ {K V : Type 0} (dk : Discrete K) where
  abbrev pub insert : K → V → Map K V → Map K V
  insert k v m q = ite (dk q k) (some v) (m q)

  abbrev pub remove : K → Map K V → Map K V
  remove k m q = ite (dk q k) none (m q)

pub record Pool (K V : Type 0) (lru : Lru V K) : Type 0 where
  pub pool : List V
  pub mapping : Map K V
  pub reverse_mapping : lru.Cache

module _ {K V : Type 0} (dk : Discrete K) (lru : Lru V K) where
  unfoldable pub new : List V → Pool K V lru
  new pool = record { pool = pool; mapping = λ k. none; reverse_mapping = lru.unbounded }

  -- the two insertions that end both branches of a miss
  abbrev pub bind_name : K → V → Pool K V lru → Pool K V lru
  bind_name key value p = record p {
    mapping = insert dk key value p.mapping;
    reverse_mapping = lru.put value key p.reverse_mapping;
  }

  -- what follows `pop_lru`, whose cache is already in `p`
  unfoldable pub evict : K → Option (V × K) → Pool K V lru → Option V × Pool K V lru
  evict key (some (value, old_key)) p =
      (some value, bind_name key value (record p { mapping = remove dk old_key p.mapping }))
  evict key none p = (none, p)

  -- what follows `pool.pop_front`
  unfoldable pub allocate : K → List V → Pool K V lru → Option V × Pool K V lru
  unfolding evict
  allocate key (value ∷ rest) p = (some value, bind_name key value (record p { pool = rest }))
  allocate key [] p =
      evict key (lru.pop_lru p.reverse_mapping).0
        (record p { reverse_mapping = (lru.pop_lru p.reverse_mapping).1 })

  unfoldable pub get_mapped : K → Option V → Pool K V lru → Option V × Pool K V lru
  unfolding allocate
  get_mapped key (some value) p =
      (some value, record p { reverse_mapping = (lru.get value p.reverse_mapping).1 })
  get_mapped key none p = allocate key p.pool p

  unfoldable pub get : K → Pool K V lru → Option V × Pool K V lru
  unfolding get_mapped
  get key p = get_mapped key (p.mapping key) p

  unfoldable pub get_reverse : V → Pool K V lru → Option K × Pool K V lru
  get_reverse value p = (
    (lru.get value p.reverse_mapping).0,
    record p { reverse_mapping = (lru.get value p.reverse_mapping).1 },
  )
