-- ===== src/Io/Rules.antt =====
-- The rules that put exchanges together.
use dandelion.Prelude.{
  if◌then◌else◌, Option, some, none, arith, false, ap, [], ◌++◌, Bool, true, ◌≡◌, refl, sym, ◌∙◌,
  append_assoc, append-nil,
}
use dandelion.Prelude.Exec.{bail, ok_or, Result, ok, err, continue, Exec, ◌>>=◌, pure, ensure}
use mathlib.Core.Path.{subst}
use dandelion.Net.{Text}
use dandelion.Io.{Takes, map_err, Io, Wire, Talks, IoError, lift}

-- Inversion of a bind that succeeds, with the states.
pub >>=-eq-ok :
    {E S A B : Type 0} (m : Exec E S A) (f : A → Exec E S B) (s s' : S) (b : B)
    → (m >>= f) s ≡ (ok b, s')
    → (a : A) × (s1 : S) × (m s ≡ (ok a, s1)) × (f a s1 ≡ (ok b, s'))
>>=-eq-ok {E} {S} {A} {B} m f s s' b h = split (m s).0 (m s).1 refl refl h
  where
    split :
        (r : Result E A) (t : S)
        → (m s).0 ≡ r
        → (m s).1 ≡ t
        → continue f r t ≡ (ok b, s')
        → (a : A) × (s1 : S) × (m s ≡ (ok a, s1)) × (f a s1 ≡ (ok b, s'))
    split (ok a) t e1 e2 h' = (a, t, λ i. (e1 i, e2 i), h')
    split (err e) t e1 e2 h' = absurd (cc)

pub lift-eq-ok :
    {E F S A : Type 0} (g : E → F) (m : Exec E S A) (s s' : S) (a : A)
    → lift g m s ≡ (ok a, s')
    → m s ≡ (ok a, s')
lift-eq-ok {E} {F} {S} {A} g m s s' a h = split (m s).0 (m s).1 refl refl h
  where
    split :
        (r : Result E A) (t : S)
        → (m s).0 ≡ r
        → (m s).1 ≡ t
        → ◌≡◌ {A = Result F A × S} (map_err g r, t) (ok a, s')
        → m s ≡ (ok a, s')
    split (ok b) t e1 e2 h' =
        let same : b ≡ a = cc in
        let there : t ≡ s' = ap (λ z. z.1) h' in λ i. ((e1 ∙ ap (λ z. ok z) same) i, (e2 ∙ there) i)
    split (err e) t e1 e2 h' = absurd (cc)

module _ (io : Io) (w : Wire io) {E : Type 0} where
  -- One exchange after another.
  pub Talks-bind :
      {A B : Type 0} (m : Exec E io.State A) (f : A → Exec E io.State B) (a : A) (b : B)
      (in1 in2 out1 out2 : Text)
      → Talks io w m in1 out1 a
      → Talks io w (f a) in2 out2 b
      → Talks io w (m >>= f) (in1 ++ in2) (out1 ++ out2) b
  Talks-bind m f a b in1 in2 out1 out2 tm tf = record {
    at = λ s rest o e.
        let (s1, ran1, o1, in_rest, sent1) =
          tm.at s (in2 ++ rest) o (e ∙ append_assoc in1 in2 rest) in
        let (s2, ran2, o2, left, sent2) = tf.at s1 rest o1 in_rest in
        (s2, rw ran1 ran2, o2, left, rw (sent2, sent1) (append_assoc (w.sent s) out1 out2));
  }

  pub Talks-pure : {A : Type 0} (a : A) → Talks io w (pure {E = E} a) [] [] a
  Talks-pure a = record { at = λ s rest o e. (s, refl, o, e, sym (append-nil (w.sent s))) }

  -- A test that passes says nothing on the wire.
  pub Talks-ensure :
      {A : Type 0} (b : Bool) (e : E) (m : Exec E io.State A) (received out : Text) (a : A)
      → b ≡ true
      → Talks io w m received out a
      → Talks io w (ensure b e >>= λ _. m) received out a
  Talks-ensure b e m received out a h t = rw h t

  pub Talks-lift :
      {A : Type 0} (f : IoError → E) (m : Exec IoError io.State A) (received out : Text) (a : A)
      → Talks io w m received out a
      → Talks io w (lift f m) received out a
  Talks-lift f m received out a t = record {
    at = λ s rest o e.
        let (s1, ran, o1, left, out1) = t.at s rest o e in (s1, rw ran, o1, left, out1);
  }

  -- A read, and then what needs no more input.
  pub Talks-then :
      {A B : Type 0} (m : Exec E io.State A) (f : A → Exec E io.State B) (a : A) (b : B)
      (received out : Text)
      → Talks io w m received [] a
      → Talks io w (f a) [] out b
      → Talks io w (m >>= f) received out b
  Talks-then m f a b received out tm tf =
      subst (λ r. Talks io w (m >>= f) r out b) (append-nil received)
        (Talks-bind m f a b received [] [] out tm tf)

  -- A write, and then what sends no more.
  pub Talks-await :
      {A B : Type 0} (m : Exec E io.State A) (f : A → Exec E io.State B) (a : A) (b : B)
      (received out : Text)
      → Talks io w m [] out a
      → Talks io w (f a) received [] b
      → Talks io w (m >>= f) received out b
  Talks-await m f a b received out tm tf =
      subst (λ o. Talks io w (m >>= f) received o b) (append-nil out)
        (Talks-bind m f a b [] received out [] tm tf)

-- Two kinds of success: an operation that succeeded, and one whose result the caller maps.
pub continue-ok :
    {E S A B : Type 0} (f : A → Exec E S B) (r : Result E A) (s s' : S) (b : B)
    → continue f r s ≡ (ok b, s')
    → (a : A) × (r ≡ ok a) × (f a s ≡ (ok b, s'))
continue-ok f (ok a) s s' b e = (a, refl, e)
continue-ok f (err x) s s' b e = absurd (cc)

pub continue-result :
    {E S A B : Type 0} (f : A → Exec E S B) (r : Result E A) (s : S) (b : B)
    → (continue f r s).0 ≡ ok b
    → (a : A) × (r ≡ ok a) × ((f a s).0 ≡ ok b)
continue-result f (ok a) s b e = (a, refl, e)
continue-result f (err x) s b e = absurd (cc)

pub map_err-ok :
    {E F A : Type 0} (f : E → F) (r : Result E A) (a : A) → map_err f r ≡ ok a → r ≡ ok a
map_err-ok f (ok b) a e = ground arith
map_err-ok f (err x) a e = absurd (cc)

module _ (io : Io) (w : Wire io) {E : Type 0} where
  pub Takes-bind :
      {A B : Type 0} (m : Exec E io.State A) (f : A → Exec E io.State B) (P : A → Text → Type 0)
      (Q : B → Text → Type 0)
      → Takes io w m P
      → ((a : A) (r : Text) → P a r → Takes io w (f a) (λ b r'. Q b (r ++ r')))
      → Takes io w (m >>= f) Q
  Takes-bind m f P Q tm tf = record {
    at = λ s s' b ran.
        let (a, first, second) = continue-ok f (m s).0 (m s).1 s' b ran in
        let (r, e, p) = tm.at s (m s).1 a (ap (λ (x : Result E _). (x, (m s).1)) first) in
        let (r', e', q) = (tf a r p).at (m s).1 s' b second in
        (r ++ r', rw (e, e') (sym (append_assoc r r' (w.incoming s'))), q);
  }

  pub Takes-pure :
      {A : Type 0} (a : A) (Q : A → Text → Type 0) → Q a [] → Takes io w (pure {E = E} a) Q
  Takes-pure {A} a Q q = record {
    at = λ s s' b ran.
        let first : ◌≡◌ {A = Result E A} (ok a) (ok b) =
          ap (λ (x : Result E A × io.State). x.0) ran in
        let same : a ≡ b = cc first in
        ([], ap (λ (x : Result E A × io.State). w.incoming x.1) ran, subst (λ x. Q x []) same q);
  }

  pub Takes-ensure :
      {A : Type 0} (b : Bool) (e : E) (m : Exec E io.State A) (Q : A → Text → Type 0)
      → (b ≡ true → Takes io w m Q)
      → Takes io w (ensure b e >>= λ _. m) Q
  Takes-ensure true e m Q t = t refl
  Takes-ensure false e m Q t = record { at = λ s s' a ran. absurd (cc) }

  pub Takes-lift :
      {A : Type 0} (f : IoError → E) (m : Exec IoError io.State A) (Q : A → Text → Type 0)
      → Takes io w m Q
      → Takes io w (lift f m) Q
  Takes-lift {A} f m Q t = record {
    at = λ s s' a ran.
        let first : (m s).0 ≡ ok a =
          map_err-ok f (m s).0 a (ap (λ (x : Result E A × io.State). x.0) ran) in
        t.at s s' a (λ i. (first i, (ran i).1));
  }

  pub Takes-weaken :
      {A : Type 0} (m : Exec E io.State A) (P Q : A → Text → Type 0)
      → ((a : A) (r : Text) → P a r → Q a r)
      → Takes io w m P
      → Takes io w m Q
  Takes-weaken m P Q imply t = record {
    at = λ s s' a ran. let (r, e, p) = t.at s s' a ran in (r, e, imply a r p);
  }

  pub Takes-bail : {A : Type 0} (e : E) (Q : A → Text → Type 0) → Takes io w (bail e) Q
  Takes-bail e Q = record { at = λ s s' a ran. absurd (cc) }

  pub Takes-if :
      {A : Type 0} (b : Bool) (m n : Exec E io.State A) (Q : A → Text → Type 0)
      → (b ≡ true → Takes io w m Q)
      → (b ≡ false → Takes io w n Q)
      → Takes io w (if b then m else n) Q
  Takes-if true m n Q yes_case no_case = yes_case refl
  Takes-if false m n Q yes_case no_case = no_case refl

  pub Takes-ok_or :
      {A B : Type 0} (o : Option A) (e : E) (f : A → Exec E io.State B) (Q : B → Text → Type 0)
      → ((a : A) → o ≡ some a → Takes io w (f a) Q)
      → Takes io w (ok_or o e >>= f) Q
  Takes-ok_or (some a) e f Q t = t a refl
  Takes-ok_or none e f Q t = record { at = λ s s' a ran. absurd (cc) }
