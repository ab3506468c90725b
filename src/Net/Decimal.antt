-- ===== src/Net/Decimal.antt =====
-- `u16::from_str` and `Display for u16`.
use dandelion.Prelude.{
  ℕ, zero, suc, ◌+◌, ◌-◌, ◌*◌, ◌/◌, ◌%◌, ◌^◌, ◌<◌, List, [], ◌∷◌, ◌++◌, Option, none, some, true,
  false, ◌&&◌, leb, ltb, ◌==◌, if◌then◌else◌, ◌≡◌, refl, ◌≢◌, All, All-append, arith, ◌≤◌, ◌++◌,
  inl, inr, Bool-cases, Option-cases,
}
use native.Mathlib.Nat.{pow-suc}

-- One more digit: `checked_mul(10)` and `checked_add(d)`.
digit_step : ℕ → ℕ → Option ℕ
digit_step acc c =
    if leb b'0' c && leb c b'9'
    then (if ltb (acc * 10 + (c - b'0')) (2 ^ 16) then some (acc * 10 + (c - b'0')) else none)
    else none

read_digits : ℕ → List ℕ → Option ℕ
read_digits acc [] = some acc
read_digits acc (c ∷ cs) = elim (digit_step acc c) [ none ↦ none | some n ↦ read_digits n cs ]

-- At least one digit; a leading `+` is taken, and so are leading zeros.
digits_only : List ℕ → Option ℕ
digits_only [] = none
digits_only (c ∷ cs) = read_digits 0 (c ∷ cs)

unfoldable pub parse_u16 : List ℕ → Option ℕ
unfolding digits_only read_digits digit_step
parse_u16 [] = none
parse_u16 (c ∷ cs) = if c == b'+' then digits_only cs else digits_only (c ∷ cs)

-- The digits of a number below `10 ^ fuel`; a `u16` has five at most.
digits : ℕ → ℕ → List ℕ
digits zero n = []
digits (suc f) n =
    let front = digits f (n / 10) in
    if ltb n 10 then (b'0' + n) ∷ [] else front ++ (b'0' + n % 10) ∷ []

unfoldable pub u16_to_string : ℕ → List ℕ
unfolding digits
u16_to_string n = digits 5 n

abbrev bind_step : Option ℕ → ℕ → Option ℕ
bind_step none c = none
bind_step (some n) c = digit_step n c

tenth : (f n : ℕ) → n < 10 ^ suc f → n / 10 < 10 ^ f
tenth f n h = omega (arith, pow-suc 10 f)

read_digits-snoc :
    (acc : ℕ) (cs : List ℕ) (c : ℕ)
    → read_digits acc (cs ++ c ∷ []) ≡ bind_step (read_digits acc cs) c
unfolding read_digits
read_digits-snoc acc [] c = ground arith
read_digits-snoc acc (d ∷ cs) c = elim (Option-cases (digit_step acc d)) [
  | inl stop ↦ rw (stop, read_digits) refl
  | inr (n, more) ↦ rw (more, read_digits) (read_digits-snoc n cs c)
]

digit_step_lem : (n : ℕ) → n < 2 ^ 16 → digit_step (n / 10) (b'0' + n % 10) ≡ some n
unfolding digit_step
digit_step_lem n h = ground arith

digit_step_zero : (n : ℕ) → n < 10 → digit_step 0 (b'0' + n) ≡ some n
unfolding digit_step
digit_step_zero n h = ground arith

digits-small : (f n : ℕ) → ltb n 10 ≡ true → digits (suc f) n ≡ (b'0' + n) ∷ []
unfolding digits
digits-small f n h = rw h

digits-large :
    (f n : ℕ) → ltb n 10 ≡ false → digits (suc f) n ≡ digits f (n / 10) ++ (b'0' + n % 10) ∷ []
unfolding digits
digits-large f n h = rw h

read_digits-digits : (f n : ℕ) → n < 10 ^ f → n < 2 ^ 16 → read_digits 0 (digits f n) ≡ some n
read_digits-digits zero n h k = unfold digits read_digits in ground arith
read_digits-digits (suc f) n h k = elim (Bool-cases (ltb n 10)) [
  | inl small ↦
      rw (digits-small f n small)
        (unfold read_digits in rw (digit_step_zero n (ground arith), read_digits))
  | inr large ↦
      rw
        (
          digits-large f n large,
          read_digits-snoc 0 (digits f (n / 10)) (b'0' + n % 10),
          read_digits-digits f (n / 10) (tenth f n h) (omega arith),
        )
        (digit_step_lem n k)
]

-- The first character is a digit, so it is no sign.
digits-head :
    (f n : ℕ)
    → n < 10 ^ suc f
    → (c : ℕ) × (cs : List ℕ) × (digits (suc f) n ≡ c ∷ cs) × (b'0' ≤ c) × (c ≤ b'9')
digits-head zero n h = (b'0' + n, [], digits-small zero n (ground arith), omega arith, omega arith)
digits-head (suc f) n h = elim (Bool-cases (ltb n 10)) [
  | inl small ↦ (b'0' + n, [], digits-small (suc f) n small, omega arith, ground arith)
  | inr large ↦
      let (c, cs, e, lo, hi) = digits-head f (n / 10) (tenth (suc f) n h) in
      (c, cs ++ (b'0' + n % 10) ∷ [], rw (digits-large (suc f) n large, e), lo, hi)
]

parse_u16-unsigned : (c : ℕ) (cs : List ℕ) → b'0' ≤ c → parse_u16 (c ∷ cs) ≡ read_digits 0 (c ∷ cs)
unfolding parse_u16
parse_u16-unsigned c cs h = ground arith

digits-ne : (x f n : ℕ) → b'9' < x → All (λ c. c ≢ x) (digits f n)
digits-ne x zero n h = unfold digits in tt
digits-ne x (suc f) n h = elim (Bool-cases (ltb n 10)) [
  | inl small ↦ rw (digits-small f n small) (ground arith)
  | inr large ↦ rw (digits-large f n large) (
      All-append _ (digits f (n / 10)) ((b'0' + n % 10) ∷ []) (digits-ne x f (n / 10) h)
        (omega arith))
]

-- A printed port holds nothing behind `9` in the code table, so no colon.
pub u16_to_string-ne : (x n : ℕ) → b'9' < x → All (λ c. c ≢ x) (u16_to_string n)
unfolding u16_to_string
u16_to_string-ne x n h = digits-ne x 5 n h

-- What is printed for a port reads back as the port.
pub parse_u16-to_string : (n : ℕ) → n < 2 ^ 16 → parse_u16 (u16_to_string n) ≡ some n
parse_u16-to_string n h =
    let (c, cs, e, lo, hi) = digits-head 4 n (omega arith) in
    unfold u16_to_string in
    rw (e, parse_u16-unsigned c cs lo, ← e) (read_digits-digits 5 n (omega arith) h)
