-- ===== src/Tun/Pool/Keeps.antt =====
-- Every operation of the pool keeps the two directions of the mapping in agreement.
use dandelion.Prelude.{List, [], ◌∷◌, ◌++◌, Option, none, some, ◌≡◌, refl, ◌∙◌, arith}
use mathlib.Core.List.{Mem, Nodup, Nodup-cons}
use dandelion.Tun.Lru.{Lru, IsLru}
use dandelion.Tun.Pool.{Pool, remove, bind_name, allocate, get_mapped, get}
use dandelion.Tun.Pool.Entries.{values, names, address_of-none}
use dandelion.Tun.Pool.Invariant.{IsConsistent, addresses}

module _ {K V : Type 0} (dk : Discrete K) (dv : Discrete V) (lru : Lru V K)
    (il : IsLru dv lru) where
  open il use {order}

  abbrev Consistent : Pool K V lru → Type 0
  Consistent = IsConsistent dk dv lru il

  -- The pool after the least recent entry was taken out.
  abbrev pub popped : K → Pool K V lru → Pool K V lru
  popped old p = record p {
    mapping = remove dk old p.mapping;
    reverse_mapping = (lru.pop_lru p.reverse_mapping).1;
  }

  pub popped-IsConsistent :
      (p : Pool K V lru) (v : V) (old : K) (q : List (V × K))
      → Consistent p
      → p.pool ≡ []
      → order p.reverse_mapping ≡ (v, old) ∷ q
      → Consistent (popped old p) × (¬ Mem v (addresses dk dv lru il (popped old p)))
  popped-IsConsistent p v old q c empty e =
      let rest : order (lru.pop_lru p.reverse_mapping).1 ≡ q =
        il.order-pop_lru p.reverse_mapping ∙ rw e refl in
      let d : (¬ Mem v (values q)) × Nodup (values q) =
        Nodup-cons.0 (rw (empty, e) at c.distinct) in
      let n : (¬ Mem old (names q)) × Nodup (names q) = Nodup-cons.0 (rw e at c.named_once) in
      (
        record {
          distinct = rw (empty, rest) d.1;
          named_once = rw rest n.1;
          agree = λ j. rw rest (ground (arith, c.agree j, address_of-none dv dk old q n.0));
        },
        rw (empty, rest) d.0,
      )

  -- The pool after the first free address was taken out
  pub taken-IsConsistent :
      (p : Pool K V lru) (v : V) (rest : List V)
      → Consistent p
      → p.pool ≡ v ∷ rest
      → Consistent (record p { pool = rest })
        × (¬ Mem v (addresses dk dv lru il (record p { pool = rest })))
  taken-IsConsistent p v rest c e =
      let d : (¬ Mem v (rest ++ values (order p.reverse_mapping)))
          × Nodup (rest ++ values (order p.reverse_mapping)) =
        Nodup-cons.0 (rw e at c.distinct) in
      (record { distinct = d.1; named_once = c.named_once; agree = c.agree }, d.0)

  -- The four ways in which `get` ends, with the state that each leaves.
  pub data Outcome (key : K) (p : Pool K V lru) (r : Option V × Pool K V lru) : Type 0 where
    hit :
        (v : V)
        → p.mapping key ≡ some v
        → r ≡ (some v, record p { reverse_mapping = (lru.get v p.reverse_mapping).1 })
        → Outcome key p r
    free :
        (v : V) (rest : List V)
        → p.mapping key ≡ none
        → p.pool ≡ v ∷ rest
        → r ≡ (some v, bind_name dk lru key v (record p { pool = rest }))
        → Outcome key p r
    evicted :
        (v : V) (old : K) (q : List (V × K))
        → p.mapping key ≡ none
        → p.pool ≡ []
        → order p.reverse_mapping ≡ (v, old) ∷ q
        → r ≡ (some v, bind_name dk lru key v (popped old p))
        → Outcome key p r
    exhausted :
        p.mapping key ≡ none
        → p.pool ≡ []
        → order p.reverse_mapping ≡ []
        → r ≡ (none, record p { reverse_mapping = (lru.pop_lru p.reverse_mapping).1 })
        → Outcome key p r

  -- The four outcomes are all there are.
  pub get-Outcome : (key : K) (p : Pool K V lru) → Outcome key p (get dk lru key p)
  get-Outcome key p = by_mapping (p.mapping key) refl
    where
      by_order :
          (q : List (V × K))
          → p.mapping key ≡ none
          → p.pool ≡ []
          → order p.reverse_mapping ≡ q
          → Outcome key p (get dk lru key p)
      by_order [] m e o = exhausted m e o (
          unfold get in rw (m, get_mapped, e, allocate, il.pop_lru-first p.reverse_mapping, o) refl)
      by_order ((v, old) ∷ q) m e o = evicted v old q m e o (
          unfold get in rw (m, get_mapped, e, allocate, il.pop_lru-first p.reverse_mapping, o) refl)

      by_pool : (l : List V) → p.mapping key ≡ none → p.pool ≡ l → Outcome key p (get dk lru key p)
      by_pool [] m e = by_order (order p.reverse_mapping) m e refl
      by_pool (v ∷ rest) m e = free v rest m e (unfold get in rw (m, get_mapped, e) refl)

      by_mapping : (o : Option V) → p.mapping key ≡ o → Outcome key p (get dk lru key p)
      by_mapping (some v) m = hit v m (unfold get in rw m refl)
      by_mapping none m = by_pool p.pool m refl
