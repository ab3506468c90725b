-- ===== src/Tun/Tests.antt =====
-- A cache as a list of entries, runs of the pool over it, and the theorems at inputs of their own.
use dandelion.Prelude.{
  ℕ, List, [], ◌∷◌, ◌++◌, Option, none, some, ◌≡◌, refl, arith, eq_text, if◌then◌else◌, ◌<◌, length,
}
use mathlib.Core.List.{Nodup, Nodup-cons, Nodup-nil, not-mem-nil, eq-or-mem_of_mem-cons}
use std.Equiv.{IsEquiv}
use mathlib.Core.HLevel.{⊥_prop}
use mathlib.Core.Logic.Or
use native.Mathlib.Decide.{ℕ_discrete}
use dandelion.Net.{Text, AddrText, v4}
use dandelion.Tun.Lru.{Lru, IsLru, owner, use_entry, without, first, rest_of}
use dandelion.Tun.Pool.{Pool, new, get, get_reverse}
use dandelion.Tun.Pool.Invariant.{IsConsistent, addresses, new-IsConsistent}
use dandelion.Tun.Pool.Laws.{Call, name, address, run, run-IsConsistent}
use dandelion.Tun.Pool.Bijection.{to_used, run-IsEquiv}
use dandelion.Tun.Pool.Queue.{Slot, lookup_address}
use dandelion.Tun.Pool.Refines.{view, get-lookup_name, get_reverse-lookup_address}
use dandelion.Tun.Pool.Recycling.{get_all}
use dandelion.Tun.Pool.Retains.{get-run}
use dandelion.Tun.Resolver.{Octets, FakeDnsResolver, lookup_ipv4, lookup_ipv6, lookup_ptr}
use dandelion.Tun.Resolver.Answers.{lookup_ptr-lookup_ipv4}

module _ {V K : Type 0} (dv : Discrete V) where
  abbrev listed : Lru V K
  listed = record {
    Cache = List (V × K);
    unbounded = [];
    get = λ v q. (owner dv v q, use_entry dv v (owner dv v q) q);
    put = λ v k q. without dv v q ++ (v, k) ∷ [];
    pop_lru = λ q. (first q, rest_of q);
  }

  listed-IsLru : IsLru dv listed
  listed-IsLru = record {
    order = λ q. q;
    order-unbounded = refl;
    get-owner = λ v q. refl;
    order-get = λ v q. refl;
    order-put = λ v k q. refl;
    pop_lru-first = λ q. refl;
    order-pop_lru = λ q. refl;
  }

octets_discrete : Discrete Octets
octets_discrete = hlevel ℕ_discrete

abbrev numbers : Lru ℕ ℕ
numbers = listed ℕ_discrete

two-Nodup : Nodup {A = ℕ} (10 ∷ 11 ∷ [])
two-Nodup = Nodup-cons.1 (
  λ m. Or.elim ⊥_prop (eq-or-mem_of_mem-cons m) (λ e. omega arith) not-mem-nil,
  Nodup-cons.1 (not-mem-nil, Nodup-nil),
)

-- two addresses
abbrev start : Pool ℕ ℕ numbers
start = record { pool = 10 ∷ 11 ∷ []; mapping = λ k. none; reverse_mapping = [] }

start-IsConsistent : IsConsistent ℕ_discrete ℕ_discrete numbers (listed-IsLru ℕ_discrete) start
unfolding new
start-IsConsistent =
    new-IsConsistent ℕ_discrete ℕ_discrete numbers (listed-IsLru ℕ_discrete) (10 ∷ 11 ∷ [])
      two-Nodup

-- The address that was used longest ago is the one that a third name takes.
reuse :
    get_all ℕ_discrete numbers (1 ∷ 2 ∷ 1 ∷ 3 ∷ []) start
    ≡ some 10 ∷ some 11 ∷ some 10 ∷ some 11 ∷ []
unfolding get_all get ℕ_discrete
reuse = refl

run-IsConsistent_example : IsConsistent ℕ_discrete ℕ_discrete numbers (listed-IsLru ℕ_discrete) (
    run ℕ_discrete ℕ_discrete numbers
      (listed-IsLru ℕ_discrete)
      (name 1 ∷ name 2 ∷ address 10 ∷ name 3 ∷ [])
      (new ℕ_discrete numbers (10 ∷ 11 ∷ [])))
run-IsConsistent_example =
    run-IsConsistent ℕ_discrete ℕ_discrete numbers (listed-IsLru ℕ_discrete) (10 ∷ 11 ∷ [])
      (name 1 ∷ name 2 ∷ address 10 ∷ name 3 ∷ []) two-Nodup

abbrev some_calls : List (Call ℕ ℕ)
some_calls = name 1 ∷ name 2 ∷ address 10 ∷ name 3 ∷ []

run-IsEquiv_example : IsEquiv (
    to_used ℕ_discrete ℕ_discrete numbers
      (listed-IsLru ℕ_discrete)
      (run ℕ_discrete ℕ_discrete numbers
        (listed-IsLru ℕ_discrete)
        some_calls
        (new ℕ_discrete numbers (10 ∷ 11 ∷ [])))
      (run-IsConsistent ℕ_discrete ℕ_discrete numbers
        (listed-IsLru ℕ_discrete)
        (10 ∷ 11 ∷ [])
        some_calls
        two-Nodup))
run-IsEquiv_example =
    run-IsEquiv ℕ_discrete ℕ_discrete numbers (listed-IsLru ℕ_discrete) (10 ∷ 11 ∷ []) some_calls
      two-Nodup

first_address : (get ℕ_discrete numbers 7 start).0 ≡ some 10
unfolding get
first_address = refl

get-lookup_name_example :
    ◌≡◌ {A = Option ℕ × List (Slot ℕ ℕ)}
      (
        (get ℕ_discrete numbers 7 start).0,
        view ℕ_discrete ℕ_discrete numbers
            (listed-IsLru ℕ_discrete)
            (get ℕ_discrete numbers 7 start).1,
      )
      (some 10, (11, none) ∷ (10, some 7) ∷ [])
unfolding listed-IsLru
get-lookup_name_example =
    get-lookup_name ℕ_discrete ℕ_discrete numbers (listed-IsLru ℕ_discrete) 7 start
      start-IsConsistent

get_reverse-lookup_address_example :
    ◌≡◌ {A = Option ℕ × List (Slot ℕ ℕ)}
      (
        (get_reverse ℕ_discrete numbers 10 start).0,
        view ℕ_discrete ℕ_discrete numbers
            (listed-IsLru ℕ_discrete)
            (get_reverse ℕ_discrete numbers 10 start).1,
      )
      (lookup_address ℕ_discrete ℕ_discrete 10
        (view ℕ_discrete ℕ_discrete numbers (listed-IsLru ℕ_discrete) start))
get_reverse-lookup_address_example =
    get_reverse-lookup_address ℕ_discrete ℕ_discrete numbers (listed-IsLru ℕ_discrete) 10 start
      start-IsConsistent

-- the fewest addresses that leave room for one lookup in between
room :
    1
    < length (
        addresses ℕ_discrete ℕ_discrete numbers
          (listed-IsLru ℕ_discrete)
          (get ℕ_discrete numbers 7 start).1)
unfolding listed-IsLru get
room = omega arith

get-run_example :
    ((get ℕ_discrete numbers 7 (
        run ℕ_discrete ℕ_discrete numbers
          (listed-IsLru ℕ_discrete)
          (name 8 ∷ [])
          (get ℕ_discrete numbers 7 start).1)).0
      ≡ some 10)
    × ((get_reverse ℕ_discrete numbers 10 (
          run ℕ_discrete ℕ_discrete numbers
            (listed-IsLru ℕ_discrete)
            (name 8 ∷ [])
            (get ℕ_discrete numbers 7 start).1)).0
        ≡ some 7)
get-run_example =
    get-run ℕ_discrete ℕ_discrete numbers (listed-IsLru ℕ_discrete) 7 10 (name 8 ∷ []) start
      start-IsConsistent first_address room

-- texts of which `a` alone is the text of an address
abbrev some_text : AddrText
some_text = record {
  parse_ip = λ n. if eq_text n (b'a' ∷ []) then some (v4 (127 ∷ 0 ∷ 0 ∷ 1 ∷ [])) else none;
  ip_to_string = λ a. [];
  parse_addr = λ n. none;
  addr_to_string = λ a. [];
}

abbrev octets : Lru Octets Text
octets = listed octets_discrete

abbrev resolver : FakeDnsResolver some_text octets_discrete octets
resolver = record {
  ipv4_mapping = record { pool = (10 ∷ []) ∷ []; mapping = λ k. none; reverse_mapping = [] };
  ipv6_mapping = record { pool = (20 ∷ []) ∷ []; mapping = λ k. none; reverse_mapping = [] };
}

one-IsConsistent :
    (o : Octets)
    → IsConsistent octets_discrete octets_discrete octets
        (listed-IsLru octets_discrete)
        (record { pool = o ∷ []; mapping = λ k. none; reverse_mapping = [] })
unfolding new
one-IsConsistent o =
    new-IsConsistent octets_discrete octets_discrete octets (listed-IsLru octets_discrete) (o ∷ [])
      (Nodup-cons.1 (not-mem-nil, Nodup-nil))

ipv4_answer : (lookup_ipv4 some_text octets_discrete octets (b'b' ∷ []) resolver).0 ≡ some (10 ∷ [])
unfolding lookup_ipv4 get
ipv4_answer = refl

ipv6_answer : (lookup_ipv6 some_text octets_discrete octets (b'b' ∷ []) resolver).0 ≡ some (20 ∷ [])
unfolding lookup_ipv6 get
ipv6_answer = refl

lookup_ptr-lookup_ipv4_example :
    ((lookup_ptr some_text octets_discrete octets
        (v4 (10 ∷ []))
        (lookup_ipv4 some_text octets_discrete octets (b'b' ∷ []) resolver).1).0
      ≡ some (b'b' ∷ []))
    × ((lookup_ipv4 some_text octets_discrete octets (b'b' ∷ []) resolver).1.ipv6_mapping
        ≡ resolver.ipv6_mapping)
lookup_ptr-lookup_ipv4_example =
    lookup_ptr-lookup_ipv4 some_text octets_discrete octets octets_discrete
      (listed-IsLru octets_discrete) (b'b' ∷ []) (10 ∷ []) resolver refl
      (one-IsConsistent (10 ∷ [])) ipv4_answer
