-- ===== src/Tun/Pool/Recycling.antt =====
-- In which order addresses are handed out.
use dandelion.Prelude.{
  ◌≤◌, List, [], ◌∷◌, ◌++◌, map, Option, none, some, ◌≡◌, ◌≢◌, refl, sym, ap, ◌∙◌, arith,
  append_assoc, append-nil, take, length, All,
}
use mathlib.Core.Path.{ap₂, subst}
use mathlib.Core.Logic.{if_neg}
use dandelion.Tun.Lru.{Lru, IsLru}
use dandelion.Tun.Pool.{Pool, get}
use dandelion.Tun.Pool.Invariant.{IsConsistent}
use dandelion.Tun.Pool.Laws.{get-IsConsistent}
use dandelion.Tun.Pool.Queue.{Slot, find, lookup_name}
use dandelion.Tun.Pool.Refines.{view, get-lookup_name}

-- Names that are looked up one after another, and what each lookup returns.
module _ {K V : Type 0} (dk : Discrete K) (lru : Lru V K) where
  unfoldable pub get_all : List K → Pool K V lru → List (Option V)
  get_all [] p = []
  get_all (k ∷ ks) p = (get dk lru k p).0 ∷ get_all ks (get dk lru k p).1

module _ {K V : Type 0} (dk : Discrete K) (dv : Discrete V) where
  abbrev answers : List K → List (Slot V K) → List (Option V)
  answers [] q = []
  answers (k ∷ ks) q = (lookup_name dk dv k q).0 ∷ answers ks (lookup_name dk dv k q).1

  -- None of the names has an address, and they are all different.
  abbrev pub AreNew : List K → List (Slot V K) → Type 0
  AreNew [] q = Unit {0}
  AreNew (k ∷ ks) q = (find dk k q ≡ none) × All (λ j. j ≢ k) ks × AreNew ks q

  find-snoc :
      (j k : K) (v : V) (q : List (Slot V K))
      → j ≢ k
      → find dk j q ≡ none
      → find dk j (q ++ (v, some k) ∷ []) ≡ none
  find-snoc j k v [] d e = if_neg (dk k j) (λ p. d (sym p)) (some v) none
  find-snoc j k v ((u, none) ∷ q) d e = find-snoc j k v q d e
  find-snoc j k v ((u, some i) ∷ q) d e = ground (arith, find-snoc j k v q d)

  find-tail :
      (j : K) (v : V) (o : Option K) (q : List (Slot V K))
      → find dk j ((v, o) ∷ q) ≡ none
      → find dk j q ≡ none
  find-tail j v none q e = e
  find-tail j v (some i) q e = ground arith

  find-rotate :
      (j k : K) (v : V) (o : Option K) (q : List (Slot V K))
      → j ≢ k
      → find dk j ((v, o) ∷ q) ≡ none
      → find dk j (q ++ (v, some k) ∷ []) ≡ none
  find-rotate j k v o q d e = find-snoc j k v q d (find-tail j v o q e)

  AreNew-rotate :
      (ks : List K) (k : K) (v : V) (o : Option K) (q : List (Slot V K))
      → All (λ j. j ≢ k) ks
      → AreNew ks ((v, o) ∷ q)
      → AreNew ks (q ++ (v, some k) ∷ [])
  AreNew-rotate [] k v o q d n = tt
  AreNew-rotate (j ∷ ks) k v o q d n =
      (find-rotate j k v o q d.0 n.0, n.1, AreNew-rotate ks k v o q d.1 n.2)

  answers-fresh :
      (ks : List K) (q tail : List (Slot V K))
      → AreNew ks (q ++ tail)
      → length ks ≤ length q
      → answers ks (q ++ tail) ≡ take (length ks) (map (λ s. some s.0) q)
  answers-fresh [] q tail n h = refl
  answers-fresh (k ∷ ks) [] tail n h = absurd (omega arith)
  answers-fresh (k ∷ ks) ((v, o) ∷ q) tail n h =
      rw (n.0, append_assoc q tail ((v, some k) ∷ []))
        (ap (◌∷◌ (some v)) (
          answers-fresh ks q (tail ++ (v, some k) ∷ [])
            (rw append_assoc at (AreNew-rotate ks k v o (q ++ tail) n.1 n.2)) (omega arith)))

module _ {K V : Type 0} (dk : Discrete K) (dv : Discrete V) (lru : Lru V K)
    (il : IsLru dv lru) where
  get_all-answers :
      (ks : List K) (p : Pool K V lru)
      → IsConsistent dk dv lru il p
      → get_all dk lru ks p ≡ answers dk dv ks (view dk dv lru il p)
  unfolding get_all
  get_all-answers [] p c = refl
  get_all-answers (k ∷ ks) p c =
      let step = get-lookup_name dk dv lru il k p c in
      ap₂ ◌∷◌ (ap (λ x. x.0) step) (
        get_all-answers ks (get dk lru k p).1 (get-IsConsistent dk dv lru il k p c)
        ∙ ap (λ x. answers dk dv ks x.1) step)

  -- In a consistent pool over a cache that behaves as the crate documents, names that are all
  -- different and have no address, no more of them than there are addresses, get the first
  -- addresses of the queue in its order: the free ones as the pool lists them, and then those in
  -- use from the least recently used one on.
  get_all-new :
      (ks : List K) (p : Pool K V lru)
      → IsConsistent dk dv lru il p
      → AreNew dk dv ks (view dk dv lru il p)
      → length ks ≤ length (view dk dv lru il p)
      → get_all dk lru ks p ≡ take (length ks) (map (λ s. some s.0) (view dk dv lru il p))
  get_all-new ks p c n h =
      let q = view dk dv lru il p in
      get_all-answers ks p c
      ∙ ap (answers dk dv ks) (sym (append-nil q))
      ∙ answers-fresh dk dv ks q [] (subst (AreNew dk dv ks) (sym (append-nil q)) n) h
