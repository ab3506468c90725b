-- ===== src/Connector/Race.antt =====
-- core/src/core/connector/speed.rs: several connectors, each behind a delay of its own, of which the
-- first that succeeds counts. Time and `select_ok`, of the crate futures, are parameters.
use dandelion.Prelude.{ℕ, ◌+◌, ◌≤◌, List, [], ◌∷◌, Option, none, some, map, ◌≡◌, ◌⊎◌, inl, inr, All}
use dandelion.Prelude.Exec.{Result, ok}
use dandelion.Endpoint.{Endpoint}

-- A future, by what it comes to where it is polled from some time on: when, and with which result;
-- `none` where it never ends.
abbrev pub Future : Type 0 → Type 0 → Type 0
Future E A = ℕ → Option (ℕ × Result E A)

-- `panicked` is the assertion of `select_ok` that there is a future.
pub data Ended (E A : Type 0) : Type 0 where
  panicked never : Ended E A
  at : ℕ → Result E A → Ended E A

module _ {E A : Type 0} where
  -- `sleep` comes to its end at some time; what is behind it starts then.
  abbrev pub delayed : (ℕ → ℕ → ℕ) → Future E A → ℕ → Future E A
  delayed sleep f delay now = f (sleep delay now)

  -- the future of one connector
  unfoldable pub branch : (ℕ → ℕ → ℕ) → Endpoint → ℕ × (Endpoint → Future E A) → Future E A
  branch sleep endpoint (delay, connector) = delayed sleep (connector endpoint) delay

  abbrev pub ended : Option (ℕ × Result E A) → Ended E A
  ended none = never
  ended (some (time, r)) = at time r

  abbrev pub select :
      (Future E A → List (Future E A) → Future E A) → List (Future E A) → ℕ → Ended E A
  select select_ok [] now = panicked
  select select_ok (f ∷ fs) now = ended (select_ok f fs now)

  unfoldable pub connect :
      (Future E A → List (Future E A) → Future E A)
      → (ℕ → ℕ → ℕ)
      → List (ℕ × (Endpoint → Future E A))
      → Endpoint
      → ℕ
      → Ended E A
  unfolding branch
  connect select_ok sleep connectors endpoint =
      select select_ok (map (branch sleep endpoint) connectors)

abbrev pub Any : {A : Type 0} → (A → Type 0) → List A → Type 0
Any P [] = ⊥
Any P (x ∷ xs) = P x ⊎ Any P xs

module _ {A B : Type 0} (f : A → B) (P : B → Type 0) (Q : A → Type 0)
    (from : (a : A) → P (f a) → Q a) where
  Any-map : (xs : List A) → Any P (map f xs) → Any Q xs
  Any-map [] h = h
  Any-map (x ∷ xs) (inl h) = inl (from x h)
  Any-map (x ∷ xs) (inr h) = inr (Any-map xs h)

  All-map : (xs : List A) → All P (map f xs) → All Q xs
  All-map [] h = tt
  All-map (x ∷ xs) h = (from x h.0, All-map xs h.1)

module _ {E A : Type 0} where
  abbrev pub Succeeds : ℕ → ℕ → A → Future E A → Type 0
  Succeeds now time a f = f now ≡ some (time, ok a)

  -- it succeeds no earlier
  abbrev pub NotBefore : ℕ → ℕ → Future E A → Type 0
  NotBefore now time f = (time' : ℕ) (a : A) → Succeeds now time' a f → time ≤ time'

  -- What the crate documents: the success is that of one of the futures, and the first of all.
  pub record IsSelectOk (select_ok : Future E A → List (Future E A) → Future E A) : Type 0 where
    pub success :
        (f : Future E A) (fs : List (Future E A)) (now time : ℕ) (a : A)
        → select_ok f fs now ≡ some (time, ok a)
        → Any (Succeeds now time a) (f ∷ fs) × All (NotBefore now time) (f ∷ fs)

  at_inj :
      (o : Option (ℕ × Result E A)) (time : ℕ) (r : Result E A)
      → ended o ≡ at time r
      → o ≡ some (time, r)
  at_inj none time r e = absurd (cc)
  at_inj (some (time', r')) time r e = cc

  module _ (select_ok : Future E A → List (Future E A) → Future E A) (laws : IsSelectOk select_ok)
      (sleep : ℕ → ℕ → ℕ) (waits : (delay now : ℕ) → now + delay ≤ sleep delay now) where
    select-success :
        (fs : List (Future E A)) (now time : ℕ) (a : A)
        → select select_ok fs now ≡ at time (ok a)
        → Any (Succeeds now time a) fs × All (NotBefore now time) fs
    select-success [] now time a e = absurd (cc)
    select-success (f ∷ fs) now time a e =
        laws.success f fs now time a (at_inj (select_ok f fs now) time (ok a) e)

    -- With `sleep` and `select_ok` as their crates document them: where the race succeeds, the
    -- success is that of one connector, which was called with the endpoint when its delay was over,
    -- and no connector that is called when its delay is over succeeds earlier.
    connect-success :
        (connectors : List (ℕ × (Endpoint → Future E A))) (endpoint : Endpoint) (now time : ℕ)
        (a : A)
        → connect select_ok sleep connectors endpoint now ≡ at time (ok a)
        → Any
            (λ c. (now + c.0 ≤ sleep c.0 now) × Succeeds (sleep c.0 now) time a (c.1 endpoint))
            connectors
          × All (λ c. NotBefore (sleep c.0 now) time (c.1 endpoint)) connectors
    unfolding connect
    connect-success connectors endpoint now time a e =
        let (one, all) = select-success (map (branch sleep endpoint) connectors) now time a e in
        (
          Any-map (branch sleep endpoint) (Succeeds now time a)
              (λ c. (now + c.0 ≤ sleep c.0 now) × Succeeds (sleep c.0 now) time a (c.1 endpoint))
              (λ (d, c) h. (waits d now, h)) connectors one,
          All-map (branch sleep endpoint) (NotBefore now time)
              (λ c. NotBefore (sleep c.0 now) time (c.1 endpoint)) (λ (d, c) h. h) connectors all,
        )
