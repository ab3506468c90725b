-- ===== src/Endpoint/RoundTrip.antt =====
-- `Endpoint`'s `FromStr` against its `Display`.
use dandelion.Prelude.{
  ℕ, ◌<◌, ◌^◌, ◌∷◌, ◌++◌, none, some, ◌≡◌, ◌≢◌, ◌↔◌, All, arith, refl, Option-cases, inl, inr,
}
use dandelion.Prelude.Exec.{ok}
use dandelion.Net.{Text, AddrText, ReadsBack}
use dandelion.Net.Decimal.{parse_u16, u16_to_string, parse_u16-to_string, u16_to_string-ne}
use dandelion.Endpoint.{
  Endpoint, addr, domain, port, rsplit_once, from_host_and_port, from_str, to_string,
}
use dandelion.Endpoint.Split.{rsplit_once-append, rsplit_once_lem}

-- A host name that is printed as a socket address reads back as that address.
abbrev pub canonical : AddrText → Endpoint → Endpoint
canonical t (addr a) = addr a
canonical t (domain d p) = elim (t.parse_addr (d ++ b':' ∷ u16_to_string p)) [
  | some a ↦ addr a
  | none ↦ domain d p
]

from_host_and_port-print :
    (d : Text) (p : ℕ)
    → p < 2 ^ 16
    → from_host_and_port (d ++ b':' ∷ u16_to_string p) ≡ ok (domain d p)
unfolding from_host_and_port
from_host_and_port-print d p h =
    rw
      (
        rsplit_once-append b':' d (u16_to_string p) (u16_to_string-ne b':' p (omega arith)),
        from_host_and_port,
        parse_u16-to_string p h,
      )
      refl

-- With `std`'s addresses reading back what they print, the text of an endpoint whose port is a
-- `u16` reads back as the endpoint itself, except that a domain whose text is the text of a socket
-- address comes back as that address.
pub from_str-to_string :
    (t : AddrText) (e : Endpoint)
    → ReadsBack t
    → port e < 2 ^ 16
    → from_str t (to_string t e) ≡ ok (canonical t e)
unfolding from_str to_string port
from_str-to_string t (addr a) r h = rw (r.parse_addr-to_string a, from_str) refl
from_str-to_string t (domain d p) r h =
    elim (Option-cases (t.parse_addr (d ++ b':' ∷ u16_to_string p))) [
      | inl name ↦ rw (name, from_str, canonical, from_host_and_port-print d p h) refl
      | inr (a, number) ↦ rw (number, from_str, canonical) refl
    ]

from_host_and_port-ok :
    (s d : Text) (p : ℕ)
    → from_host_and_port s ≡ ok (domain d p)
    → (q : Text) × (rsplit_once b':' s ≡ some (d, q)) × (parse_u16 q ≡ some p)
from_host_and_port-ok s d p e = elim (Option-cases (rsplit_once b':' s)) [
  | inl whole ↦ absurd (unfold from_host_and_port in ground arith)
  | inr ((host, q), cut) ↦ elim (Option-cases (parse_u16 q)) [
    | inl bad ↦ absurd (unfold from_host_and_port in ground arith)
    | inr (n, good) ↦
        (q, unfold from_host_and_port in ground arith, unfold from_host_and_port in ground arith)
  ]
]

-- A text is read as a domain exactly where it is no socket address and is that domain, a colon and
-- a port that parses, and the port's text holds no colon.
pub from_str-domain :
    (t : AddrText) (s d : Text) (p : ℕ)
    → (from_str t s ≡ ok (domain d p)) ↔ (
        (q : Text) × (t.parse_addr s ≡ none)
        × (s ≡ d ++ b':' ∷ q)
        × (parse_u16 q ≡ some p)
        × All (λ c. c ≢ b':') q)
from_str-domain t s d p = (
  λ e. elim (Option-cases (t.parse_addr s)) [
    | inl name ↦
        let read : from_host_and_port s ≡ ok (domain d p) = unfold from_str in ground arith in
        let (q, cut, num) = from_host_and_port-ok s d p read in
        let (whole, clean) = rsplit_once_lem b':' s d q cut in (q, name, whole, num, clean)
    | inr (a, number) ↦ absurd (unfold from_str in ground arith)
  ],
  λ (q, name, whole, num, clean).
      let cut : rsplit_once b':' s ≡ some (d, q) = rw whole (rsplit_once-append b':' d q clean) in
      unfold from_str from_host_and_port in ground arith,
)
