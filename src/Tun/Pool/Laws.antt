-- ===== src/Tun/Pool/Laws.antt =====
-- What a client of the pool can rely on.
use dandelion.Prelude.{
  List, [], ◌∷◌, Option, some, ◌≡◌, refl, sym, ◌∙◌, arith, inl, inr, Option-cases,
}
use mathlib.Core.Path.{subst}
use mathlib.Core.Logic.{if_pos}
use mathlib.Core.List.{Nodup, Nodup-append}
use dandelion.Tun.Lru.{Lru, IsLru, owner}
use dandelion.Tun.Pool.{Pool, new, get, get_mapped, get_reverse}
use dandelion.Tun.Pool.Entries.{owner-address_of}
use dandelion.Tun.Pool.Invariant.{
  IsConsistent, new-IsConsistent, touched-IsConsistent, bind_name-IsConsistent,
}
use dandelion.Tun.Pool.Keeps.{
  popped, popped-IsConsistent, taken-IsConsistent, Outcome, hit, free, evicted, exhausted,
  get-Outcome,
}

-- What a resolver does with a pool.
pub data Call (K V : Type 0) : Type 0 where
  name : K → Call K V
  address : V → Call K V

module _ {K V : Type 0} (dk : Discrete K) (dv : Discrete V) (lru : Lru V K)
    (il : IsLru dv lru) where
  open il use {order}

  abbrev Consistent : Pool K V lru → Type 0
  Consistent = IsConsistent dk dv lru il

  outcome-IsConsistent :
      (key : K) (p : Pool K V lru) (r : Option V × Pool K V lru)
      → Consistent p
      → Outcome dk dv lru il key p r
      → Consistent r.1
  outcome-IsConsistent key p r c (hit v m e) =
      subst (λ x. Consistent x.1) (sym e)
        (touched-IsConsistent dk dv lru il p v key c (
          owner-address_of dv dk key v (order p.reverse_mapping) (Nodup-append.0 c.distinct).1
            (sym (c.agree key) ∙ m)))
  outcome-IsConsistent key p r c (free v rest m l e) =
      let (c', fresh) = taken-IsConsistent dk dv lru il p v rest c l in
      subst (λ x. Consistent x.1) (sym e)
        (bind_name-IsConsistent dk dv lru il key v (record p { pool = rest }) c' fresh m)
  outcome-IsConsistent key p r c (evicted v old q m l o e) =
      let (c', fresh) = popped-IsConsistent dk dv lru il p v old q c l o in
      subst (λ x. Consistent x.1) (sym e)
        (bind_name-IsConsistent dk dv lru il key v (popped dk dv lru il old p) c' fresh
          (ground arith))
  outcome-IsConsistent key p r c (exhausted m l o e) =
      let same : order (lru.pop_lru p.reverse_mapping).1 ≡ order p.reverse_mapping =
        rw (il.order-pop_lru p.reverse_mapping, o) refl in
      subst (λ x. Consistent x.1) (sym e)
        (record {
          distinct = rw same c.distinct;
          named_once = rw same c.named_once;
          agree = λ k. rw same (c.agree k);
        })

  pub get-IsConsistent :
      (key : K) (p : Pool K V lru) → Consistent p → Consistent (get dk lru key p).1
  get-IsConsistent key p c =
      outcome-IsConsistent key p (get dk lru key p) c (get-Outcome dk dv lru il key p)

  pub get_reverse-IsConsistent :
      (v : V) (p : Pool K V lru) → Consistent p → Consistent (get_reverse dk lru v p).1
  unfolding get_reverse
  get_reverse-IsConsistent v p c = elim (Option-cases (owner dv v (order p.reverse_mapping))) [
    | inl nobody ↦
        let same : order (lru.get v p.reverse_mapping).1 ≡ order p.reverse_mapping =
          rw (il.order-get v p.reverse_mapping, nobody) refl in
        record {
          distinct = rw same c.distinct;
          named_once = rw same c.named_once;
          agree = λ k. rw same (c.agree k);
        }
    | inr (k, somebody) ↦ touched-IsConsistent dk dv lru il p v k c somebody
  ]

  unfoldable pub run : List (Call K V) → Pool K V lru → Pool K V lru
  run [] p = p
  run (name k ∷ calls) p = run calls (get dk lru k p).1
  run (address v ∷ calls) p = run calls (get_reverse dk lru v p).1

  run-keeps : (calls : List (Call K V)) (p : Pool K V lru) → Consistent p → Consistent (run calls p)
  unfolding run
  run-keeps [] p c = c
  run-keeps (name k ∷ calls) p c = run-keeps calls (get dk lru k p).1 (get-IsConsistent k p c)
  run-keeps (address v ∷ calls) p c =
      run-keeps calls (get_reverse dk lru v p).1 (get_reverse-IsConsistent v p c)

  -- With a cache that behaves as the crate documents, and a pool of distinct addresses: after any
  -- sequence of lookups by name and by address no address is in two places, no name has two
  -- addresses, and the mapping and its reverse hold the same pairs.
  pub run-IsConsistent :
      (pool : List V) (calls : List (Call K V))
      → Nodup pool
      → IsConsistent dk dv lru il (run calls (new dk lru pool))
  run-IsConsistent pool calls d =
      run-keeps calls (new dk lru pool) (new-IsConsistent dk dv lru il pool d)

  outcome-mapping :
      (key : K) (p : Pool K V lru) (r : Option V × Pool K V lru) (v : V)
      → Outcome dk dv lru il key p r
      → r.0 ≡ some v
      → r.1.mapping key ≡ some v
  outcome-mapping key p r v (hit u m e) a = ground arith
  outcome-mapping key p r v (free u rest m l e) a =
      ground (arith, if_pos (dk key key) refl (some u) (p.mapping key))
  outcome-mapping key p r v (evicted u old q m l o e) a = ground arith
  outcome-mapping key p r v (exhausted m l o e) a = absurd (ground arith)

  -- In a consistent pool over a cache that behaves as the crate documents: the address that a
  -- lookup of a name returns is returned again by the next lookup of that name, and a lookup of the
  -- address leads back to the name.
  pub get_reverse-get :
      (key : K) (p : Pool K V lru) (v : V)
      → IsConsistent dk dv lru il p
      → (get dk lru key p).0 ≡ some v
      → ((get dk lru key (get dk lru key p).1).0 ≡ some v)
        × ((get_reverse dk lru v (get dk lru key p).1).0 ≡ some key)
  unfolding get get_reverse
  get_reverse-get key p v c a =
      let p' = (get dk lru key p).1 in
      let mapped : p'.mapping key ≡ some v =
        outcome-mapping key p (get dk lru key p) v (get-Outcome dk dv lru il key p) a in
      let c' : Consistent p' = get-IsConsistent key p c in
      let owned : owner dv v (order p'.reverse_mapping) ≡ some key =
        owner-address_of dv dk key v (order p'.reverse_mapping) (Nodup-append.0 c'.distinct).1
          (sym (c'.agree key) ∙ mapped) in
      (again p' mapped, il.get-owner v p'.reverse_mapping ∙ owned)
    where
      again : (p' : Pool K V lru) → p'.mapping key ≡ some v → (get dk lru key p').0 ≡ some v
      again p' mapped = rw (mapped, get, get_mapped) refl
