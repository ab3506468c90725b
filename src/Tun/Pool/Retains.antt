-- ===== src/Tun/Pool/Retains.antt =====
-- How long a name keeps its address.
use dandelion.Prelude.{
  ℕ, suc, ◌<◌, List, [], ◌∷◌, Option, none, some, ◌≡◌, refl, sym, ◌∙◌, ap, subst, length,
}
use mathlib.Core.List.{Nodup, Nodup-append}
use dandelion.Tun.Lru.{Lru, IsLru, owner}
use dandelion.Tun.Pool.{Pool, get, get_mapped, get_reverse}
use dandelion.Tun.Pool.Entries.{owner-address_of}
use dandelion.Tun.Pool.Bijection.{address_of-owner}
use dandelion.Tun.Pool.Invariant.{IsConsistent, addresses}
use dandelion.Tun.Pool.Laws.{Call, name, address, run, get-IsConsistent, get_reverse-IsConsistent}
use dandelion.Tun.Pool.Queue.{Slot, find, holder, renew, lookup_found}
use dandelion.Tun.Pool.Holds.{
  places, places-slots, Holds, Holds-holder, Holds-less, Holds-used, Holds-other, Holds-handed,
  lookup_found-Holds, length-places,
}
use dandelion.Tun.Pool.Refines.{
  view, find-view, holder-view, get-lookup_name, get_reverse-lookup_address,
}

module _ {K V : Type 0} (dk : Discrete K) (dv : Discrete V) (lru : Lru V K)
    (il : IsLru dv lru) where
  abbrev Consistent : Pool K V lru → Type 0
  Consistent = IsConsistent dk dv lru il

  abbrev queue : Pool K V lru → List (Slot V K)
  queue = view dk dv lru il

  queue-Nodup : (p : Pool K V lru) → Consistent p → Nodup (places dk dv (queue p))
  queue-Nodup p c =
      subst Nodup (sym (places-slots dk dv p.pool (il.order p.reverse_mapping))) c.distinct

  -- The name of the address of a slot is the one that the mapping gives the address for.
  Holds-owner :
      (n : ℕ) (v : V) (k : K) (p : Pool K V lru)
      → Consistent p
      → Holds dk dv n v k (queue p)
      → owner dv v (il.order p.reverse_mapping) ≡ some k
  Holds-owner n v k p c h =
      sym (holder-view dk dv lru il v p c) ∙ Holds-holder dk dv n v k (queue p) (queue-Nodup p c) h

  some_inj : {A : Type 0} (a b : A) → some a ≡ some b → a ≡ b
  some_inj a b e = cc

  found-Holds :
      (n : ℕ) (v : V) (k j : K) (o : Option V) (p : Pool K V lru)
      → Consistent p
      → p.mapping j ≡ o
      → Holds dk dv (suc n) v k (queue p)
      → Holds dk dv n v k (lookup_found dk dv j o (queue p)).1
  found-Holds n v k j none p c e h = Holds-handed dk dv n v k j (queue p) h
  found-Holds n v k j (some u) p c e h = elim (dv v u) [
    | yes same ↦
        let owned : owner dv v (il.order p.reverse_mapping) ≡ some j =
          owner-address_of dv dk j v (il.order p.reverse_mapping) (Nodup-append.0 c.distinct).1
            (sym (c.agree j) ∙ e ∙ ap some (sym same)) in
        let own : k ≡ j = some_inj k j (sym (Holds-owner (suc n) v k p c h) ∙ owned) in
        subst (λ x. Holds dk dv n v k (renew dv x (some j) (queue p))) same
          (subst (λ x. Holds dk dv n v k (renew dv v (some x) (queue p))) own
            (Holds-used dk dv n v k (queue p) (queue-Nodup p c) h))
    | no apart ↦ Holds-other dk dv n v u k j (queue p) apart (queue-Nodup p c) h
  ]

  held-Holds :
      (n : ℕ) (v u : V) (k : K) (o : Option K) (p : Pool K V lru)
      → Consistent p
      → holder dv u (queue p) ≡ o
      → Holds dk dv (suc n) v k (queue p)
      → Holds dk dv n v k (renew dv u o (queue p))
  held-Holds n v u k none p c e h = Holds-less dk dv n v k (queue p) h
  held-Holds n v u k (some j) p c e h = elim (dv v u) [
    | yes same ↦
        let own : k ≡ j = some_inj k j (
          sym (Holds-holder dk dv (suc n) v k (queue p) (queue-Nodup p c) h)
          ∙ ap (λ x. holder dv x (queue p)) same
          ∙ e) in
        subst (λ x. Holds dk dv n v k (renew dv x (some j) (queue p))) same
          (subst (λ x. Holds dk dv n v k (renew dv v (some x) (queue p))) own
            (Holds-used dk dv n v k (queue p) (queue-Nodup p c) h))
    | no apart ↦ Holds-other dk dv n v u k j (queue p) apart (queue-Nodup p c) h
  ]

  run-Holds :
      (v : V) (k : K) (calls : List (Call K V)) (p : Pool K V lru)
      → Consistent p
      → Holds dk dv (length calls) v k (queue p)
      → Consistent (run dk dv lru il calls p) × Holds dk dv 0 v k (queue (run dk dv lru il calls p))
  unfolding run
  run-Holds v k [] p c h = (c, h)
  run-Holds v k (name j ∷ calls) p c h =
      run-Holds v k calls (get dk lru j p).1 (get-IsConsistent dk dv lru il j p c) (
        subst (Holds dk dv (length calls) v k)
          (sym (ap (λ z. (lookup_found dk dv j z (queue p)).1) (find-view dk dv lru il j p c))
            ∙ sym (ap (λ z. z.1) (get-lookup_name dk dv lru il j p c)))
          (found-Holds (length calls) v k j (p.mapping j) p c refl h))
  run-Holds v k (address u ∷ calls) p c h =
      run-Holds v k calls (get_reverse dk lru u p).1 (get_reverse-IsConsistent dk dv lru il u p c) (
        subst (Holds dk dv (length calls) v k)
          (sym (ap (λ z. z.1) (get_reverse-lookup_address dk dv lru il u p c)))
          (held-Holds (length calls) v u k (holder dv u (queue p)) p c refl h))

  length-addresses : (p : Pool K V lru) → length (addresses dk dv lru il p) ≡ length (queue p)
  length-addresses p =
      ap length (sym (places-slots dk dv p.pool (il.order p.reverse_mapping)))
      ∙ length-places dk dv (queue p)

  got-Holds :
      (n : ℕ) (v : V) (k : K) (p : Pool K V lru)
      → Consistent p
      → (get dk lru k p).0 ≡ some v
      → n < length (queue (get dk lru k p).1)
      → Holds dk dv n v k (queue (get dk lru k p).1)
  got-Holds n v k p c e h =
      let same = get-lookup_name dk dv lru il k p c in
      subst (Holds dk dv n v k) (sym (ap (λ z. z.1) same)) (
        lookup_found-Holds dk dv n v k (find dk k (queue p)) (queue p)
          (sym (ap (λ z. z.0) same) ∙ e) (subst (λ x. n < length x) (ap (λ z. z.1) same) h))

  get_mapping :
      (k : K) (v : V) (p : Pool K V lru) → p.mapping k ≡ some v → (get dk lru k p).0 ≡ some v
  unfolding get get_mapped
  get_mapping k v p m = rw m refl

  owned_answers :
      (v : V) (k : K) (p : Pool K V lru)
      → Consistent p
      → owner dv v (il.order p.reverse_mapping) ≡ some k
      → ((get dk lru k p).0 ≡ some v) × ((get_reverse dk lru v p).0 ≡ some k)
  unfolding get_reverse
  owned_answers v k p c e =
      let mapped : p.mapping k ≡ some v =
        c.agree k ∙ address_of-owner dk dv k v (il.order p.reverse_mapping) c.named_once e in
      (get_mapping k v p mapped, il.get-owner v p.reverse_mapping ∙ e)

  -- In a consistent pool over a cache that behaves as the crate documents: when a lookup of a name
  -- returns an address, the name keeps it through any further lookups, by name and by address, that
  -- are fewer than the addresses of the pool: after them a lookup of the name returns the address
  -- again, and a lookup of the address returns the name.
  pub get-run :
      (key : K) (v : V) (calls : List (Call K V)) (p : Pool K V lru)
      → IsConsistent dk dv lru il p
      → (get dk lru key p).0 ≡ some v
      → length calls < length (addresses dk dv lru il (get dk lru key p).1)
      → ((get dk lru key (run dk dv lru il calls (get dk lru key p).1)).0 ≡ some v)
        × ((get_reverse dk lru v (run dk dv lru il calls (get dk lru key p).1)).0 ≡ some key)
  get-run key v calls p c e h =
      let p' = (get dk lru key p).1 in
      let held =
        got-Holds (length calls) v key p c e
          (subst (λ x. length calls < x) (length-addresses p') h) in
      let (c', h') = run-Holds v key calls p' (get-IsConsistent dk dv lru il key p c) held in
      let p'' = run dk dv lru il calls p' in
      owned_answers v key p'' c' (Holds-owner 0 v key p'' c' h')
