-- ===== src/Tun/Pool/Queue.antt =====
-- The pool as one queue: the addresses in the order in which they will be handed out, each with
-- the name that has it, if one does. A lookup of a known name moves its address to the back; any
-- other name takes the address at the front.
use dandelion.Prelude.{
  List, [], ◌∷◌, ◌++◌, map, Option, none, some, ◌≡◌, refl, sym, ap, arith, append_assoc,
}
use mathlib.Core.Logic.{ite, if_neg}
use mathlib.Core.List.{Mem, map-append, mem-cons_self, mem-cons_of_mem}
use dandelion.Tun.Lru.{owner, without}
use dandelion.Tun.Pool.Entries.{address_of}

abbrev pub Slot : Type 0 → Type 0 → Type 0
Slot V K = V × Option K

module _ {V K : Type 0} (dk : Discrete K) where
  abbrev pub find : K → List (Slot V K) → Option V
  find k [] = none
  find k ((v, none) ∷ q) = find k q
  find k ((v, some j) ∷ q) = ite (dk j k) (some v) (find k q)

  abbrev pub hand_out : K → List (Slot V K) → Option V × List (Slot V K)
  hand_out k [] = (none, [])
  hand_out k ((v, _) ∷ q) = (some v, q ++ (v, some k) ∷ [])

module _ {V K : Type 0} (dv : Discrete V) where
  abbrev pub holder : V → List (Slot V K) → Option K
  holder v [] = none
  holder v ((u, o) ∷ q) = ite (dv u v) o (holder v q)

  abbrev pub take_out : V → List (Slot V K) → List (Slot V K)
  take_out v [] = []
  take_out v ((u, o) ∷ q) = let rest = take_out v q in ite (dv u v) rest ((u, o) ∷ rest)

  -- the address is used by its name, if one has it
  abbrev pub renew : V → Option K → List (Slot V K) → List (Slot V K)
  renew v none q = q
  renew v (some k) q = take_out v q ++ (v, some k) ∷ []

module _ {V K : Type 0} (dk : Discrete K) (dv : Discrete V) where
  abbrev pub lookup_found : K → Option V → List (Slot V K) → Option V × List (Slot V K)
  lookup_found k (some v) q = (some v, renew dv v (some k) q)
  lookup_found k none q = hand_out dk k q

  -- A lookup by name, and one by address.
  abbrev pub lookup_name : K → List (Slot V K) → Option V × List (Slot V K)
  lookup_name k q = lookup_found k (find dk k q) q

  abbrev pub lookup_address : V → List (Slot V K) → Option K × List (Slot V K)
  lookup_address v q = (holder dv v q, renew dv v (holder dv v q) q)

module _ {V K : Type 0} where
  abbrev pub free_slot : V → Slot V K
  free_slot v = (v, none)

  abbrev pub taken_slot : V × K → Slot V K
  taken_slot e = (e.0, some e.1)

module _ {V K : Type 0} (dk : Discrete K) (dv : Discrete V) where
  abbrev pub slots : List V → List (V × K) → List (Slot V K)
  slots pool q = map free_slot pool ++ map taken_slot q

  pub find-slots :
      (k : K) (pool : List V) (q : List (V × K)) → find dk k (slots pool q) ≡ address_of dk k q
  find-slots k [] [] = refl
  find-slots k [] ((v, j) ∷ q) = ground (arith, find-slots k [] q)
  find-slots k (v ∷ pool) q = find-slots k pool q

  pub holder-slots :
      (v : V) (pool : List V) (q : List (V × K))
      → ¬ Mem v pool
      → holder dv v (slots pool q) ≡ owner dv v q
  holder-slots v [] [] h = refl
  holder-slots v [] ((u, j) ∷ q) h = ground (arith, holder-slots v [] q h)
  holder-slots v (u ∷ pool) q h = elim (dv u v) [
    | yes here ↦ absurd (h (rw here mem-cons_self))
    | no away ↦ rw (if_neg _ away) (holder-slots v pool q (λ m. h (mem-cons_of_mem u m)))
  ]

  pub holder-none :
      (v : V) (pool : List V) (q : List (V × K))
      → owner dv v q ≡ none
      → holder dv v (slots pool q) ≡ none
  holder-none v [] [] e = refl
  holder-none v [] ((u, j) ∷ q) e = ground (arith, holder-none v [] q)
  holder-none v (u ∷ pool) q e = ground (arith, holder-none v pool q e)

  pub take_out-slots :
      (v : V) (pool : List V) (q : List (V × K))
      → ¬ Mem v pool
      → take_out dv v (slots pool q) ≡ slots pool (without dv v q)
  take_out-slots v [] [] h = refl
  take_out-slots v [] ((u, j) ∷ q) h = ground (arith, take_out-slots v [] q h)
  take_out-slots v (u ∷ pool) q h = elim (dv u v) [
    | yes here ↦ absurd (h (rw here mem-cons_self))
    | no away ↦
        rw (if_neg (dv u v) away)
          (ap (◌∷◌ (u, none)) (take_out-slots v pool q (λ m. h (mem-cons_of_mem u m))))
  ]

  pub slots-snoc :
      (pool : List V) (q : List (V × K)) (v : V) (k : K)
      → slots pool (q ++ (v, k) ∷ []) ≡ slots pool q ++ (v, some k) ∷ []
  slots-snoc pool q v k =
      rw (map-append)
        (sym (append_assoc (map free_slot pool) (map taken_slot q) ((v, some k) ∷ [])))
