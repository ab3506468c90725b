-- ===== src/Tun/Pool/Holds.antt =====
-- Where in the pool's queue the address of a name stands, and how far a lookup moves it.
use dandelion.Prelude.{
  ℕ, suc, ◌+◌, ◌≤◌, ◌<◌, List, [], ◌∷◌, ◌++◌, map, Option, none, some, ◌≡◌, refl, sym, ◌∙◌, ap,
  subst, arith, length, length-append, append_assoc,
}
use mathlib.Core.Logic.{if_pos, if_neg}
use mathlib.Core.List.{
  Mem, Nodup, Nodup-cons, Nodup-append, map-append, mem-cons_self, mem-cons_of_mem,
  mem-append_right,
}
use dandelion.Tun.Pool.Entries.{values}
use dandelion.Tun.Pool.Queue.{Slot, hand_out, holder, take_out, renew, lookup_found, slots}

module _ {V K : Type 0} (dk : Discrete K) (dv : Discrete V) where
  abbrev pub places : List (Slot V K) → List V
  places = map (λ s. s.0)

  pub length-places : (q : List (Slot V K)) → length (places q) ≡ length q
  length-places [] = refl
  length-places (s ∷ q) = ap suc (length-places q)

  pub places-slots :
      (pool : List V) (q : List (V × K)) → places (slots dk dv pool q) ≡ pool ++ values q
  places-slots [] [] = refl
  places-slots [] (e ∷ q) = ap (◌∷◌ e.0) (places-slots [] q)
  places-slots (v ∷ pool) q = ap (◌∷◌ v) (places-slots pool q)

  take_out-append :
      (v : V) (a b : List (Slot V K)) → take_out dv v (a ++ b) ≡ take_out dv v a ++ take_out dv v b
  take_out-append v [] b = refl
  take_out-append v (s ∷ a) b = ground (arith, take_out-append v a b)

  take_out-none : (v : V) (q : List (Slot V K)) → ¬ Mem v (places q) → take_out dv v q ≡ q
  take_out-none v [] h = refl
  take_out-none v (s ∷ q) h = elim (dv s.0 v) [
    | yes here ↦ absurd (h (rw here mem-cons_self))
    | no away ↦
        rw (if_neg (dv s.0 v) away)
          (ap (◌∷◌ s) (take_out-none v q (λ m. h (mem-cons_of_mem s.0 m))))
  ]

  -- An address is in one place at most.
  length-take_out :
      (v : V) (q : List (Slot V K)) → Nodup (places q) → length q ≤ length (take_out dv v q) + 1
  length-take_out v [] d = omega arith
  length-take_out v (s ∷ q) d =
      let (fresh, d') = Nodup-cons.0 d in
      elim (dv s.0 v) [
        | yes here ↦ rw (if_pos (dv s.0 v) here, take_out-none v q (rw here at fresh)) (omega arith)
        | no away ↦ rw (if_neg (dv s.0 v) away) (omega (arith, length-take_out v q d'))
      ]

  -- `v` is the name's, and at least `n` addresses are to be handed out before it.
  pub record Holds (n : ℕ) (v : V) (k : K) (q : List (Slot V K)) : Type 0 where
    pub front : List (Slot V K)
    pub back : List (Slot V K)
    pub split : q ≡ front ++ (v, some k) ∷ back
    pub far : n ≤ length front

  front-Nodup : (a b : List (Slot V K)) → Nodup (places (a ++ b)) → Nodup (places a)
  front-Nodup a b d = (Nodup-append.0 (rw (map-append) at d)).0

  mem_middle : (v : V) (o : Option K) (a b : List (Slot V K)) → Mem v (places (a ++ (v, o) ∷ b))
  mem_middle v o a b = rw (map-append) (mem-append_right (places a) mem-cons_self)

  holder_middle :
      (v : V) (k : K) (a b : List (Slot V K))
      → Nodup (places (a ++ (v, some k) ∷ b))
      → holder dv v (a ++ (v, some k) ∷ b) ≡ some k
  holder_middle v k [] b d = if_pos (dv v v) refl (some k) (holder dv v b)
  holder_middle v k (s ∷ a) b d =
      let (fresh, d') = Nodup-cons.0 d in
      elim (dv s.0 v) [
        | yes here ↦ absurd (fresh (rw here (mem_middle v (some k) a b)))
        | no away ↦ rw (if_neg (dv s.0 v) away) (holder_middle v k a b d')
      ]

  pub Holds-holder :
      (n : ℕ) (v : V) (k : K) (q : List (Slot V K))
      → Nodup (places q)
      → Holds n v k q
      → holder dv v q ≡ some k
  Holds-holder n v k q d h =
      ap (holder dv v) h.split
      ∙ holder_middle v k h.front h.back (subst (λ x. Nodup (places x)) h.split d)

  pub Holds-less :
      (n : ℕ) (v : V) (k : K) (q : List (Slot V K)) → Holds (suc n) v k q → Holds n v k q
  Holds-less n v k q h = record {
    front = h.front;
    back = h.back;
    split = h.split;
    far = omega (arith, h.far);
  }

  -- a use of the address itself
  pub Holds-used :
      (n : ℕ) (v : V) (k : K) (q : List (Slot V K))
      → Nodup (places q)
      → Holds (suc n) v k q
      → Holds n v k (renew dv v (some k) q)
  Holds-used n v k q d h = record {
    front = take_out dv v q;
    back = [];
    split = refl;
    far = omega (
      arith,
      length-take_out v q d,
      ap length h.split,
      length-append h.front ((v, some k) ∷ h.back),
      h.far,
    );
  }

  -- a use of another address
  pub Holds-other :
      (n : ℕ) (v u : V) (k j : K) (q : List (Slot V K))
      → ¬ (v ≡ u)
      → Nodup (places q)
      → Holds (suc n) v k q
      → Holds n v k (renew dv u (some j) q)
  Holds-other n v u k j q apart d h = record {
    front = take_out dv u h.front;
    back = take_out dv u h.back ++ (u, some j) ∷ [];
    split =
        ap (λ x. take_out dv u x ++ (u, some j) ∷ []) h.split
        ∙ ap (λ x. x ++ (u, some j) ∷ [])
            (take_out-append u h.front ((v, some k) ∷ h.back)
              ∙ ap (λ x. take_out dv u h.front ++ x)
                  (if_neg (dv v u) apart (take_out dv u h.back)
                    ((v, some k) ∷ take_out dv u h.back)))
        ∙ append_assoc (take_out dv u h.front) ((v, some k) ∷ take_out dv u h.back)
            ((u, some j) ∷ []);
    far = omega (
      arith,
      length-take_out u h.front
          (front-Nodup h.front ((v, some k) ∷ h.back) (subst (λ x. Nodup (places x)) h.split d)),
      h.far,
    );
  }

  handed_middle :
      (n : ℕ) (v : V) (k j : K) (a b : List (Slot V K))
      → suc n ≤ length a
      → Holds n v k (hand_out dk j (a ++ (v, some k) ∷ b)).1
  handed_middle n v k j [] b h = absurd (omega arith)
  handed_middle n v k j (s ∷ a) b h = record {
    front = a;
    back = b ++ (s.0, some j) ∷ [];
    split = append_assoc a ((v, some k) ∷ b) ((s.0, some j) ∷ []);
    far = omega arith;
  }

  -- the front of the queue goes to another name
  pub Holds-handed :
      (n : ℕ) (v : V) (k j : K) (q : List (Slot V K))
      → Holds (suc n) v k q
      → Holds n v k (hand_out dk j q).1
  Holds-handed n v k j q h =
      subst (λ x. Holds n v k (hand_out dk j x).1) (sym h.split)
        (handed_middle n v k j h.front h.back h.far)

  last_Holds :
      (n : ℕ) (u v : V) (k : K) (q : List (Slot V K))
      → u ≡ v
      → n < length (q ++ (u, some k) ∷ [])
      → Holds n v k (q ++ (u, some k) ∷ [])
  last_Holds n u v k q e h = record {
    front = q;
    back = [];
    split = ap (λ x. q ++ (x, some k) ∷ []) e;
    far = omega (arith, length-append q ((u, some k) ∷ []));
  }

  -- The address that a lookup by name returns is at the back of the queue.
  pub lookup_found-Holds :
      (n : ℕ) (v : V) (k : K) (o : Option V) (q : List (Slot V K))
      → (lookup_found dk dv k o q).0 ≡ some v
      → n < length (lookup_found dk dv k o q).1
      → Holds n v k (lookup_found dk dv k o q).1
  lookup_found-Holds n v k none [] e h = absurd (cc)
  lookup_found-Holds n v k none ((u, _) ∷ q) e h = last_Holds n u v k q (ground arith) h
  lookup_found-Holds n v k (some u) q e h = last_Holds n u v k (take_out dv u q) (ground arith) h
