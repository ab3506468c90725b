-- ===== src/Endpoint/Split.antt =====
-- Where `rsplit_once` cuts.
use dandelion.Prelude.{
  ℕ, [], ◌∷◌, ◌++◌, Option, none, some, ◌≡◌, ◌≢◌, refl, All, arith, ◌⊎◌, inl, inr, sym,
}
use mathlib.Core.Path.{subst}
use dandelion.Net.{Text}
use dandelion.Endpoint.{rsplit_once, split_step}

pub rsplit_once-none : (c : ℕ) (t : Text) → All (λ x. x ≢ c) t → rsplit_once c t ≡ none
unfolding rsplit_once
rsplit_once-none c [] h = refl
rsplit_once-none c (x ∷ xs) h = rw (rsplit_once-none c xs h.1) (ground (arith, h.0))

-- A text with one more cut character behind splits there if the rest has none.
pub rsplit_once-append :
    (c : ℕ) (front back : Text)
    → All (λ x. x ≢ c) back
    → rsplit_once c (front ++ c ∷ back) ≡ some (front, back)
unfolding rsplit_once
rsplit_once-append c [] back h = rw (rsplit_once-none c back h) (ground arith)
rsplit_once-append c (x ∷ front) back h = rw (rsplit_once-append c front back h) refl

split_step-none :
    (c x : ℕ) (xs : Text) (o : Option (Text × Text))
    → split_step c x xs o ≡ none
    → (x ≢ c) × (o ≡ none)
split_step-none c x xs none e = ground arith
split_step-none c x xs (some p) e = absurd (cc)

none-rsplit_once : (c : ℕ) (t : Text) → rsplit_once c t ≡ none → All (λ x. x ≢ c) t
unfolding rsplit_once
none-rsplit_once c [] e = tt
none-rsplit_once c (x ∷ xs) e =
    let (miss, stop) = split_step-none c x xs (rsplit_once c xs) e in
    (miss, none-rsplit_once c xs stop)

-- What one step of the scan says of its result.
split_step_lem :
    (c x : ℕ) (xs front back : Text) (o : Option (Text × Text))
    → split_step c x xs o ≡ some (front, back)
    → ((o ≡ none) × (x ≡ c) × (front ≡ []) × (back ≡ xs))
      ⊎ ((f : Text) × (o ≡ some (f, back)) × (front ≡ x ∷ f))
split_step_lem c x xs front back none e = ground arith
split_step_lem c x xs front back (some (f, b)) e = inr (f, ground arith, ground arith)

-- The two halves, with the character between them, are the text, and the second holds no other.
pub rsplit_once_lem :
    (c : ℕ) (t front back : Text)
    → rsplit_once c t ≡ some (front, back)
    → (t ≡ front ++ c ∷ back) × All (λ x. x ≢ c) back
unfolding rsplit_once
rsplit_once_lem c [] front back e = absurd (cc)
rsplit_once_lem c (x ∷ xs) front back e =
    elim (split_step_lem c x xs front back (rsplit_once c xs) e) [
      | inl (stop, here, f, b) ↦
          (rw (f, here, b) refl, subst (All (λ y. y ≢ c)) (sym b) (none-rsplit_once c xs stop))
      | inr (f, found, e') ↦
          let (same, clean) = rsplit_once_lem c xs f back found in (rw (e', same) refl, clean)
    ]
