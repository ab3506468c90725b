-- ===== src/Net/Utf8.antt =====
-- `String::from_utf8`: which byte sequences are UTF-8 (`std::str::from_utf8`'s table).
use dandelion.Prelude.{
  ℕ, zero, suc, List, [], ◌∷◌, Option, none, some, Bool, true, false, ◌&&◌, leb, ltb, if◌then◌else◌,
  ◌≡◌, refl, ◌<◌, All, arith,
}

-- How many continuation bytes are due, and the range of the next one.
pub record Pending : Type 0 where
  pub due : ℕ
  pub lo : ℕ
  pub hi : ℕ

abbrev boundary : Pending
boundary = record { due = 0; lo = 0x80; hi = 0xbf }

abbrev after_lead : ℕ → ℕ → ℕ → Option Pending
after_lead n lo hi = some (record { due = n; lo = lo; hi = hi })

-- A first byte, by the table of well-formed sequences.
lead : ℕ → Option Pending
lead b =
    if ltb b 0x80
    then some boundary
    else if ltb b 0xc2
    then none
    else if ltb b 0xe0
    then after_lead 1 0x80 0xbf
    else if leb b 0xe0
    then after_lead 2 0xa0 0xbf
    else if ltb b 0xed
    then after_lead 2 0x80 0xbf
    else if leb b 0xed
    then after_lead 2 0x80 0x9f
    else if ltb b 0xf0
    then after_lead 2 0x80 0xbf
    else if leb b 0xf0
    then after_lead 3 0x90 0xbf
    else if ltb b 0xf4
    then after_lead 3 0x80 0xbf
    else if leb b 0xf4
    then after_lead 3 0x80 0x8f
    else none

next : ℕ → Pending → ℕ → Option Pending
next zero p b = lead b
next (suc n) p b =
    if leb p.lo b && leb b p.hi then some (record { due = n; lo = 0x80; hi = 0xbf }) else none

valid_from : Pending → List ℕ → Bool
valid_from p [] = leb p.due 0
valid_from p (b ∷ bs) = elim (next p.due p b) [ none ↦ false | some q ↦ valid_from q bs ]

unfoldable pub is_utf8 : List ℕ → Bool
unfolding valid_from next lead
is_utf8 = valid_from boundary

-- ASCII is UTF-8.
pub is_utf8-ascii : (bs : List ℕ) → All (λ b. b < 0x80) bs → is_utf8 bs ≡ true
unfolding is_utf8
is_utf8-ascii [] h = refl
is_utf8-ascii (b ∷ bs) h = ground (arith, is_utf8-ascii bs h.1)
