-- ===== src/Tun/Pool/Entries.antt =====
-- The entries of the cache as a table from names to addresses and back.
use dandelion.Prelude.{List, [], ◌∷◌, ◌++◌, map, Option, none, some, ◌≡◌, refl, sym, ap, arith}
use mathlib.Core.Logic.{ite, if_pos, if_neg}
use mathlib.Core.Logic.Or
use mathlib.Core.HLevel.{⊥_prop}
use mathlib.Core.List.{
  Mem, Nodup, Nodup-cons, Perm, mem-cons_self, mem-cons_of_mem, not-mem-nil, eq-or-mem_of_mem-cons,
  perm_append_singleton,
}
use mathlib.Core.List.Perm
use dandelion.Tun.Lru.{owner, without}

module _ {V K : Type 0} where
  abbrev pub values : List (V × K) → List V
  values = map (λ e. e.0)

  abbrev pub names : List (V × K) → List K
  names = map (λ e. e.1)

-- The address of a name.
abbrev pub address_of : {V K : Type 0} → Discrete K → K → List (V × K) → Option V
address_of dk k [] = none
address_of dk k ((v, j) ∷ q) = ite (dk j k) (some v) (address_of dk k q)

module _ {V K : Type 0} (dv : Discrete V) (dk : Discrete K) where
  pub owner-none : (v : V) (q : List (V × K)) → ¬ Mem v (values q) → owner dv v q ≡ none
  owner-none v [] h = refl
  owner-none v ((u, k) ∷ q) h = elim (dv u v) [
    | yes p ↦ absurd (h (rw p mem-cons_self))
    | no p ↦ rw (if_neg _ p) (owner-none v q (λ m. h (mem-cons_of_mem u m)))
  ]

  pub without-none : (v : V) (q : List (V × K)) → ¬ Mem v (values q) → without dv v q ≡ q
  without-none v [] h = refl
  without-none v ((u, k) ∷ q) h = elim (dv u v) [
    | yes p ↦ absurd (h (rw p mem-cons_self))
    | no p ↦ rw (if_neg _ p) (ap (◌∷◌ (u, k)) (without-none v q (λ m. h (mem-cons_of_mem u m))))
  ]

  -- A name with an address is the owner of that address.
  pub owner-address_of :
      (k : K) (v : V) (q : List (V × K))
      → Nodup (values q)
      → address_of dk k q ≡ some v
      → owner dv v q ≡ some k
  owner-address_of k v [] d e = absurd (cc)
  owner-address_of k v ((u, j) ∷ q) d e = elim (dk j k) [
    | yes same ↦ let here : u ≡ v = ground arith in rw (if_pos (dv u v) here) (ap some same)
    | no other ↦
        let (fresh, d') = Nodup-cons.0 d in
        let later : owner dv v q ≡ some k = owner-address_of k v q d' (ground arith) in
        elim (dv u v) [
          | yes here ↦ absurd (cc (owner-none v q (rw here at fresh), later))
          | no away ↦ rw (if_neg (dv u v) away) later
        ]
  ]

  -- To move an entry to the end keeps the entries.
  pub use_entry-perm :
      (v : V) (k : K) (q : List (V × K))
      → Nodup (values q)
      → owner dv v q ≡ some k
      → Perm (without dv v q ++ (v, k) ∷ []) q
  use_entry-perm v k [] d e = absurd (cc)
  use_entry-perm v k ((u, j) ∷ q) d e = elim (dv u v) [
    | yes here ↦
        let (fresh, d') = Nodup-cons.0 d in
        let same : j ≡ k = ground arith in
        rw (if_pos (dv u v) here, without-none v q (rw here at fresh), here, same)
          (perm_append_singleton (v, k) q)
    | no away ↦
        rw (if_neg (dv u v) away)
          (Perm.cons (u, j) (use_entry-perm v k q (Nodup-cons.0 d).1 (ground arith)))
  ]

  pub address_of-none : (k : K) (q : List (V × K)) → ¬ Mem k (names q) → address_of dk k q ≡ none
  address_of-none k [] h = refl
  address_of-none k ((u, j) ∷ q) h = elim (dk j k) [
    | yes p ↦ absurd (h (rw p mem-cons_self))
    | no p ↦ rw (if_neg _ p) (address_of-none k q (λ m. h (mem-cons_of_mem j m)))
  ]

  pub not-mem_of_none : (k : K) (q : List (V × K)) → address_of dk k q ≡ none → ¬ Mem k (names q)
  not-mem_of_none k [] e = not-mem-nil
  not-mem_of_none k ((u, j) ∷ q) e = λ m.
      Or.elim ⊥_prop (eq-or-mem_of_mem-cons m) (λ here. ground (arith, sym here))
        (not-mem_of_none k q (ground arith))

  -- A new entry at the end gives its name an address, if the name had none.
  pub address_of-snoc :
      (k' k : K) (v : V) (q : List (V × K))
      → address_of dk k q ≡ none
      → address_of dk k' (q ++ (v, k) ∷ []) ≡ ite (dk k' k) (some v) (address_of dk k' q)
  address_of-snoc k' k v [] e = ground arith
  address_of-snoc k' k v ((u, j) ∷ q) e = ground (arith, address_of-snoc k' k v q)

  -- To use an address changes no name's address.
  pub address_of-use_entry :
      (k' k : K) (v : V) (q : List (V × K))
      → Nodup (values q)
      → Nodup (names q)
      → owner dv v q ≡ some k
      → address_of dk k' (without dv v q ++ (v, k) ∷ []) ≡ address_of dk k' q
  address_of-use_entry k' k v [] d n e = absurd (cc)
  address_of-use_entry k' k v ((u, j) ∷ q) d n e = elim (dv u v) [
    | yes here ↦
        let (fresh, d') = Nodup-cons.0 d in
        let (unnamed, n') = Nodup-cons.0 n in
        let same : j ≡ k = ground arith in
        let none_k : address_of dk k q ≡ none = address_of-none k q (rw same at unnamed) in
        rw (if_pos (dv u v) here, without-none v q (rw here at fresh))
          (ground (arith, address_of-snoc k' k v q none_k))
    | no away ↦
        rw (if_neg (dv u v) away)
          (ground (arith, address_of-use_entry k' k v q (Nodup-cons.0 d).1 (Nodup-cons.0 n).1))
  ]
