-- ===== src/Tun/Pool/Refines.antt =====
-- The pool with its hash map and its cache does what the queue does.
use dandelion.Prelude.{
  List, [], ◌∷◌, ◌++◌, Option, none, some, ◌≡◌, refl, sym, ap, ◌∙◌, arith, inl, inr, Option-cases,
}
use mathlib.Core.List.{Mem, Nodup-append, Disjoint-left, mem-append_right}
use dandelion.Tun.Lru.{Lru, IsLru, owner, without, rest_of}
use dandelion.Tun.Pool.{Pool, get, get_reverse}
use dandelion.Tun.Pool.Entries.{owner-address_of, owner-none}
use dandelion.Tun.Pool.Invariant.{order-bind_name, IsConsistent}
use dandelion.Tun.Pool.Keeps.{
  popped-IsConsistent, taken-IsConsistent, Outcome, hit, free, evicted, exhausted, get-Outcome,
}
use dandelion.Tun.Pool.Queue.{
  Slot, find, holder, renew, lookup_found, lookup_name, lookup_address, slots, find-slots,
  holder-slots, holder-none, take_out-slots, slots-snoc,
}

module _ {K V : Type 0} (dk : Discrete K) (dv : Discrete V) (lru : Lru V K)
    (il : IsLru dv lru) where
  open il use {order}

  -- Free addresses first, then those in use from the least recently used one on.
  abbrev pub view : Pool K V lru → List (Slot V K)
  view p = slots dk dv p.pool (order p.reverse_mapping)

  pub find-view :
      (key : K) (p : Pool K V lru)
      → IsConsistent dk dv lru il p
      → find dk key (view p) ≡ p.mapping key
  find-view key p c = find-slots dk dv key p.pool (order p.reverse_mapping) ∙ sym (c.agree key)

  used-not-free :
      (p : Pool K V lru) (v : V) (k : K)
      → IsConsistent dk dv lru il p
      → owner dv v (order p.reverse_mapping) ≡ some k
      → ¬ Mem v p.pool
  used-not-free p v k c e m =
      let apart = Disjoint-left.0 (Nodup-append.0 c.distinct).2 in
      let nobody : owner dv v (order p.reverse_mapping) ≡ none =
        owner-none dv dk v (order p.reverse_mapping) (apart v m) in
      let clash : some k ≡ none = sym e ∙ nobody in absurd (ground (arith, clash))

  -- what a use of an address does to the view
  view-use :
      (p : Pool K V lru) (v : V) (k : K)
      → IsConsistent dk dv lru il p
      → owner dv v (order p.reverse_mapping) ≡ some k
      → view (record p { reverse_mapping = (lru.get v p.reverse_mapping).1 })
        ≡ renew dv v (some k) (view p)
  view-use p v k c e =
      let q = order p.reverse_mapping in
      rw
        (
          il.order-get v p.reverse_mapping,
          e,
          slots-snoc dk dv p.pool (without dv v q) v k,
          take_out-slots dk dv v p.pool q (used-not-free p v k c e),
        )
        refl

  outcome-queue :
      (key : K) (p : Pool K V lru) (r : Option V × Pool K V lru)
      → IsConsistent dk dv lru il p
      → Outcome dk dv lru il key p r
      → ◌≡◌ {A = Option V × List (Slot V K)}
          (r.0, view r.1)
          (lookup_found dk dv key (p.mapping key) (view p))
  outcome-queue key p r c (hit v m e) =
      let owned : owner dv v (order p.reverse_mapping) ≡ some key =
        owner-address_of dv dk key v (order p.reverse_mapping) (Nodup-append.0 c.distinct).1
          (sym (c.agree key) ∙ m) in
      rw (e, m) (ap (λ (x : List (Slot V K)). (some v, x)) (view-use p v key c owned))
  outcome-queue key p r c (free v rest m l e) =
      let (c', fresh) = taken-IsConsistent dk dv lru il p v rest c l in
      let grown : order (lru.put v key p.reverse_mapping)
          ≡ order p.reverse_mapping ++ (v, key) ∷ [] =
        order-bind_name dk dv lru il key v p.reverse_mapping
          (λ n. fresh (mem-append_right rest n)) in
      rw (e, m, l, grown, slots-snoc dk dv rest (order p.reverse_mapping) v key) refl
  outcome-queue key p r c (evicted v old q m l o e) =
      let (c', fresh) = popped-IsConsistent dk dv lru il p v old q c l o in
      let left : order (lru.pop_lru p.reverse_mapping).1 ≡ q =
        il.order-pop_lru p.reverse_mapping ∙ ap rest_of o in
      let grown : order (lru.put v key (lru.pop_lru p.reverse_mapping).1)
          ≡ order (lru.pop_lru p.reverse_mapping).1 ++ (v, key) ∷ [] =
        order-bind_name dk dv lru il key v (lru.pop_lru p.reverse_mapping).1
          (λ n. fresh (mem-append_right p.pool n)) in
      rw (e, m, l, grown, left, o, slots-snoc dk dv [] q v key) refl
  outcome-queue key p r c (exhausted m l o e) =
      let left : order (lru.pop_lru p.reverse_mapping).1 ≡ [] =
        il.order-pop_lru p.reverse_mapping ∙ ap rest_of o in
      rw (e, m, l, left, o) refl

  -- In a consistent pool over a cache that behaves as the crate documents, a lookup of a name has
  -- the result of the queue's lookup and leaves the pool that the queue's lookup leaves: a known
  -- name moves its address to the back, and any other name gets the address at the front, free or
  -- not, so that it is the least recently used one that is taken from its name, and there is no
  -- address exactly where the pool was made of none.
  pub get-lookup_name :
      (key : K) (p : Pool K V lru)
      → IsConsistent dk dv lru il p
      → ◌≡◌ {A = Option V × List (Slot V K)}
          ((get dk lru key p).0, view (get dk lru key p).1)
          (lookup_name dk dv key (view p))
  get-lookup_name key p c =
      rw (find-view key p c)
        (outcome-queue key p (get dk lru key p) c (get-Outcome dk dv lru il key p))

  pub holder-view :
      (v : V) (p : Pool K V lru)
      → IsConsistent dk dv lru il p
      → holder dv v (view p) ≡ owner dv v (order p.reverse_mapping)
  holder-view v p c = elim (Option-cases (owner dv v (order p.reverse_mapping))) [
    | inl nobody ↦ holder-none dk dv v p.pool (order p.reverse_mapping) nobody ∙ sym nobody
    | inr (k, somebody) ↦
        holder-slots dk dv v p.pool (order p.reverse_mapping) (used-not-free p v k c somebody)
  ]

  view-touch :
      (v : V) (p : Pool K V lru) (o : Option K)
      → IsConsistent dk dv lru il p
      → owner dv v (order p.reverse_mapping) ≡ o
      → view (record p { reverse_mapping = (lru.get v p.reverse_mapping).1 })
        ≡ renew dv v o (view p)
  view-touch v p (some k) c e = view-use p v k c e
  view-touch v p none c e = rw (il.order-get v p.reverse_mapping, e) refl

  -- In a consistent pool over a cache that behaves as the crate documents, a lookup of an address
  -- has the result of the queue's lookup, the name that has the address if one has it, and leaves
  -- the pool that the queue's lookup leaves: the address moves to the back if it has a name, and
  -- nothing changes if it has none.
  pub get_reverse-lookup_address :
      (v : V) (p : Pool K V lru)
      → IsConsistent dk dv lru il p
      → ◌≡◌ {A = Option K × List (Slot V K)}
          ((get_reverse dk lru v p).0, view (get_reverse dk lru v p).1)
          (lookup_address dk dv v (view p))
  unfolding get_reverse
  get_reverse-lookup_address v p c =
      rw (holder-view v p c, il.get-owner v p.reverse_mapping)
        (ap (λ (x : List (Slot V K)). (owner dv v (order p.reverse_mapping), x))
          (view-touch v p (owner dv v (order p.reverse_mapping)) c refl))
