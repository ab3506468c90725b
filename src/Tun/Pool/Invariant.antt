-- ===== src/Tun/Pool/Invariant.antt =====
-- The two directions of the mapping agree, and no address is in two places.
use dandelion.Prelude.{
  List, [], ◌∷◌, ◌++◌, none, some, ◌≡◌, refl, sym, ◌∙◌, append-nil, append_assoc,
}
use mathlib.Core.List.{
  Mem, Nodup, Nodup-nil, Nodup-cons, Nodup-append, Perm, mem-append_right, perm_append_singleton,
  map-append,
}
use mathlib.Core.List.Perm
use dandelion.Tun.Lru.{Lru, IsLru, owner}
use dandelion.Tun.Pool.{Pool, new, bind_name}
use dandelion.Tun.Pool.Entries.{
  values, names, address_of, without-none, use_entry-perm, not-mem_of_none, address_of-snoc,
  address_of-use_entry,
}

module _ {K V : Type 0} (dk : Discrete K) (dv : Discrete V) (lru : Lru V K)
    (il : IsLru dv lru) where
  open il use {order}

  pub record IsConsistent (p : Pool K V lru) : Type 0 where
    -- free addresses and addresses in use, none of them twice
    pub distinct : Nodup (p.pool ++ values (order p.reverse_mapping))
    -- no name has two addresses
    pub named_once : Nodup (names (order p.reverse_mapping))
    -- the mapping and its reverse hold the same pairs
    pub agree : (k : K) → p.mapping k ≡ address_of dk k (order p.reverse_mapping)

  -- All addresses, free or in use.
  abbrev pub addresses : Pool K V lru → List V
  addresses p = p.pool ++ values (order p.reverse_mapping)

  pub new-IsConsistent : (pool : List V) → Nodup pool → IsConsistent (new dk lru pool)
  unfolding new
  new-IsConsistent pool d = record {
    distinct = rw (il.order-unbounded, append-nil pool) d;
    named_once = rw il.order-unbounded Nodup-nil;
    agree = λ k. rw il.order-unbounded refl;
  }

  values-Nodup : (p : Pool K V lru) → IsConsistent p → Nodup (values (order p.reverse_mapping))
  values-Nodup p c = (Nodup-append.0 c.distinct).1

  -- A use of an address that a name has.
  get_value-perm :
      (v : V) (k : K) (c : lru.Cache)
      → Nodup (values (order c))
      → owner dv v (order c) ≡ some k
      → Perm (order (lru.get v c).1) (order c)
  get_value-perm v k c d e = rw (il.order-get v c, e) (use_entry-perm dv dk v k (order c) d e)

  pub touched-IsConsistent :
      (p : Pool K V lru) (v : V) (k : K)
      → IsConsistent p
      → owner dv v (order p.reverse_mapping) ≡ some k
      → IsConsistent (record p { reverse_mapping = (lru.get v p.reverse_mapping).1 })
  touched-IsConsistent p v k c e =
      let moved : Perm (order (lru.get v p.reverse_mapping).1) (order p.reverse_mapping) =
        get_value-perm v k p.reverse_mapping (values-Nodup p c) e in
      record {
        distinct =
            Perm.nodup (Perm.append_left p.pool (Perm.map (λ x. x.0) (Perm.symm moved))) c.distinct;
        named_once = Perm.nodup (Perm.map (λ x. x.1) (Perm.symm moved)) c.named_once;
        agree = λ j.
            rw (il.order-get v p.reverse_mapping, e)
              (c.agree j
                ∙ sym (
                    address_of-use_entry dv dk j k v (order p.reverse_mapping) (values-Nodup p c)
                      c.named_once e));
      }

  -- Where a fresh address stands after the name is bound to it.
  pub order-bind_name :
      (k : K) (v : V) (c : lru.Cache)
      → ¬ Mem v (values (order c))
      → order (lru.put v k c) ≡ order c ++ (v, k) ∷ []
  order-bind_name k v c fresh = rw (il.order-put v k c, without-none dv dk v (order c) fresh) refl

  -- A new name is bound to an address that is neither free nor in use.
  pub bind_name-IsConsistent :
      (k : K) (v : V) (p : Pool K V lru)
      → IsConsistent p
      → ¬ Mem v (addresses p)
      → p.mapping k ≡ none
      → IsConsistent (bind_name dk lru k v p)
  bind_name-IsConsistent k v p c fresh unnamed =
      let q = order p.reverse_mapping in
      let unused : ¬ Mem v (values q) = λ m. fresh (mem-append_right p.pool m) in
      let no_address : address_of dk k q ≡ none = sym (c.agree k) ∙ unnamed in
      let grown : order (lru.put v k p.reverse_mapping) ≡ q ++ (v, k) ∷ [] =
        order-bind_name k v p.reverse_mapping unused in
      record {
        distinct =
            rw (grown, map-append, ← append_assoc p.pool (values q) (v ∷ []))
              (Perm.nodup (Perm.symm (perm_append_singleton v (addresses p)))
                (Nodup-cons.1 (fresh, c.distinct)));
        named_once =
            rw (grown, map-append)
              (Perm.nodup (Perm.symm (perm_append_singleton k (names q)))
                (Nodup-cons.1 (not-mem_of_none dv dk k q no_address, c.named_once)));
        agree = λ j. rw (grown, address_of-snoc dv dk j k v q no_address, c.agree j) refl;
      }
