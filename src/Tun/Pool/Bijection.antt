-- ===== src/Tun/Pool/Bijection.antt =====
-- The mapping of the pool and its reverse as one correspondence between names and addresses.
use std.Equiv.{Iso, IsEquiv, iso_to_equiv}
use mathlib.Core.HLevel.{hedberg}
use mathlib.Core.Option
use mathlib.Core.List.{Nodup, Nodup-append, Nodup-cons}
use mathlib.Core.Logic.{if_pos, if_neg}
use dandelion.Prelude.{List, [], ◌∷◌, some, ◌≡◌, sym, ◌∙◌, ap, arith}
use dandelion.Tun.Lru.{Lru, IsLru, owner}
use dandelion.Tun.Pool.{Pool, new, get_reverse}
use dandelion.Tun.Pool.Entries.{names, address_of, address_of-none, owner-address_of}
use dandelion.Tun.Pool.Invariant.{IsConsistent}
use dandelion.Tun.Pool.Laws.{Call, run, run-IsConsistent}

module _ {K V : Type 0} (dk : Discrete K) (dv : Discrete V) where
  -- The owner of an address is a name that has it.
  pub address_of-owner :
      (k : K) (v : V) (q : List (V × K))
      → Nodup (names q)
      → owner dv v q ≡ some k
      → address_of dk k q ≡ some v
  address_of-owner k v [] d e = absurd (cc)
  address_of-owner k v ((u, j) ∷ q) d e = elim (dv u v) [
    | yes same ↦ let here : j ≡ k = ground arith in rw (if_pos (dk j k) here) (ap some same)
    | no other ↦
        let (fresh, d') = Nodup-cons.0 d in
        let later : address_of dk k q ≡ some v = address_of-owner k v q d' (ground arith) in
        elim (dk j k) [
          | yes here ↦ absurd (cc (address_of-none dv dk k q (rw here at fresh), later))
          | no away ↦ rw (if_neg (dk j k) away) later
        ]
  ]

module _ {K V : Type 0} (dk : Discrete K) (dv : Discrete V) (lru : Lru V K)
    (il : IsLru dv lru) where
  -- the names that have an address, each with it
  abbrev pub Named : Pool K V lru → Type 0
  Named p = (k : K) × (v : V) × (p.mapping k ≡ some v)

  -- the addresses that a reverse lookup leads from, each with the name that it leads to
  abbrev pub Used : Pool K V lru → Type 0
  Used p = (v : V) × (k : K) × ((get_reverse dk lru v p).0 ≡ some k)

  module _ (p : Pool K V lru) (c : IsConsistent dk dv lru il p) where
    pub leads_back : (k : K) (v : V) → p.mapping k ≡ some v → (get_reverse dk lru v p).0 ≡ some k
    unfolding get_reverse
    leads_back k v e =
        il.get-owner v p.reverse_mapping
        ∙ owner-address_of dv dk k v (il.order p.reverse_mapping) (Nodup-append.0 c.distinct).1
            (sym (c.agree k) ∙ e)

    leads_on : (k : K) (v : V) → (get_reverse dk lru v p).0 ≡ some k → p.mapping k ≡ some v
    unfolding get_reverse
    leads_on k v e =
        c.agree k
        ∙ address_of-owner dk dv k v (il.order p.reverse_mapping) c.named_once
            (sym (il.get-owner v p.reverse_mapping) ∙ e)

    -- A name's address leads back to the name.
    abbrev pub to_used : Named p → Used p
    to_used (k, v, e) = (v, k, leads_back k v e)

    from_used : Used p → Named p
    from_used (v, k, e) = (k, v, leads_on k v e)

    Named-Iso-Used : Iso (Named p) (Used p)
    unfolding from_used
    Named-Iso-Used = record {
      fun = to_used;
      inv = from_used;
      rinv = λ u. λ i. (
        u.0,
        u.1,
        Option.is_set (hedberg dk) _ _ (leads_back u.1 u.0 (leads_on u.1 u.0 u.2)) u.2 i,
      );
      linv = λ n. λ i. (
        n.0,
        n.1,
        Option.is_set (hedberg dv) _ _ (leads_on n.0 n.1 (leads_back n.0 n.1 n.2)) n.2 i,
      );
    }

  -- With a cache that behaves as the crate documents, and a pool of distinct addresses: after any
  -- sequence of lookups by name and by address, the names that have an address and the addresses
  -- that a reverse lookup leads from are equivalent as types, by the map that takes a name to its
  -- address.
  pub run-IsEquiv :
      (pool : List V) (calls : List (Call K V)) (d : Nodup pool)
      → IsEquiv (
          to_used
            (run dk dv lru il calls (new dk lru pool))
            (run-IsConsistent dk dv lru il pool calls d))
  unfolding Named-Iso-Used
  run-IsEquiv pool calls d =
      (iso_to_equiv (
        Named-Iso-Used (run dk dv lru il calls (new dk lru pool))
          (run-IsConsistent dk dv lru il pool calls d))).1
