-- ===== src/Tcp/Sound.antt =====
-- Where the stream that the connector returns comes from.
pub mod Connects
use dandelion.Prelude.{
  ℕ, zero, suc, ◌+◌, List, [], ◌∷◌, ◌++◌, map, Option, none, some, Bool, true, false, not, ◌&&◌,
  ◌||◌, ◌==◌, if◌then◌else◌, ◌≡◌, ◌⊎◌, inl, inr, refl, sym, ◌∙◌, ap, arith, All, All-append,
  Bool-cases, subst,
}
use dandelion.Net.{IpAddr, v4, v6}
use dandelion.Tcp.{
  Poll, ready, pending, Outcome, good, failed, Polled, connected, gave_up, waiting, panicked,
  Connection, HappyEyeballConnector, Env, Seen, new, is_resolving, add_addresses, ipv4_done,
  ipv6_done, poll_lookups, see, fused, found, poll_connection, poll_connections, launched, launch,
  after_fold, nothing_seen, poll_ongoing, poll, await, connection_attempt_delay,
}

abbrev pub get_elem? : {A : Type 0} → List A → ℕ → Option A
get_elem? [] i = none
get_elem? (x ∷ xs) zero = some x
get_elem? (x ∷ xs) (suc i) = get_elem? xs i

module _ (P : IpAddr → Type 0) where
  -- all addresses of a state are in `P`
  abbrev pub Within : HappyEyeballConnector → Type 0
  Within c = All P c.ips × All (λ k. P k.address) c.connections

  -- a poll that goes on stays within `P`, and one that returns a stream tells where it is from
  abbrev pub Fits : {S : Type 0} → (S → Type 0) → Polled S × HappyEyeballConnector → Type 0
  Fits From (connected stream, c) = From stream
  Fits From (gave_up e, c) = Unit {0}
  Fits From (waiting, c) = Within c
  Fits From (panicked, c) = Unit {0}

module _ {S : Type 0} (P : IpAddr → Type 0) (env : Env S) where
  -- One of the connections that were not over, to an address in `P`, came to the stream; `i` is the
  -- index of the first.
  abbrev pub Ongoing : ℕ → List Connection → S → Type 0
  Ongoing i [] stream = ⊥
  Ongoing i (c ∷ cs) stream =
      (P c.address × (c.is_terminated ≡ false) × (env.connection i ≡ ready (good stream)))
      ⊎ Ongoing (i + 1) cs stream

  see-found :
      (p : Poll (Outcome S)) (s : Seen S) (stream : S)
      → (see p s).maybe_stream ≡ some stream
      → p ≡ ready (good stream)
  see-found (ready (good x)) s stream h = ground arith
  see-found (ready failed) s stream h = absurd (ground arith)
  see-found pending s stream h = absurd (ground arith)

  poll_connection-found :
      (i : ℕ) (c : Connection) (s : Seen S) (stream : S)
      → (poll_connection env i c s).0.maybe_stream ≡ some stream
      → (s.maybe_stream ≡ some stream)
        ⊎ ((c.is_terminated ≡ false) × (env.connection i ≡ ready (good stream)))
  unfolding poll_connection
  poll_connection-found i c s stream h =
      elim (Bool-cases (found s.maybe_stream || c.is_terminated)) [
        | inl skips ↦ inl (rw skips at h)
        | inr polls ↦ inr (ground arith, see-found (env.connection i) s stream (rw polls at h))
      ]

  poll_connections-found :
      (i : ℕ) (cs : List Connection) (s : Seen S) (stream : S)
      → All (λ c. P c.address) cs
      → (poll_connections env i cs s).0.maybe_stream ≡ some stream
      → (s.maybe_stream ≡ some stream) ⊎ Ongoing i cs stream
  unfolding poll_connections
  poll_connections-found i [] s stream within h = inl h
  poll_connections-found i (c ∷ cs) s stream within h =
      elim (poll_connections-found (i + 1) cs (poll_connection env i c s).0 stream within.1 h) [
        | inl here ↦ elim (poll_connection-found i c s stream here) [
          | inl before ↦ inl before
          | inr (goes_on, came) ↦ inr (inl (within.0, goes_on, came))
        ]
        | inr later ↦ inr (inr later)
      ]

  -- what was found of the connections stays to their addresses
  poll_connections-All :
      (i : ℕ) (cs : List Connection) (s : Seen S)
      → All (λ c. P c.address) cs
      → All (λ c. P c.address) (poll_connections env i cs s).1
  unfolding poll_connections
  poll_connections-All i [] s within = tt
  poll_connections-All i (c ∷ cs) s within = (
    kept (found s.maybe_stream || c.is_terminated) (env.connection i),
    poll_connections-All (i + 1) cs (poll_connection env i c s).0 within.1,
  )
    where
      fused_kept : (p : Poll (Outcome S)) → P (fused p c).address
      fused_kept (ready o) = within.0
      fused_kept pending = within.0

      kept :
          (b : Bool) (p : Poll (Outcome S))
          → P (if◌then◌else◌ {A = Seen S × Connection} b (s, c) (see p s, fused p c)).1.address
      kept true p = within.0
      kept false p = fused_kept p

  -- A new connection to an address in `P` came to the stream at once.
  abbrev pub Dialled : S → Type 0
  Dialled stream = (a : IpAddr) × P a × (env.connect a ≡ ready (good stream))

  launched-Fits :
      (From : S → Type 0) (a : IpAddr) (ips : List IpAddr) (c : HappyEyeballConnector)
      (rest : Polled S × HappyEyeballConnector) (p : Poll (Outcome S))
      → ((stream : S) → Dialled stream → From stream)
      → env.connect a ≡ p
      → P a
      → All P ips
      → All (λ k. P k.address) c.connections
      → Fits P From rest
      → Fits P From (launched env a ips c rest p)
  launched-Fits From a ips c rest (ready (good stream)) from came here others before fits =
      from stream (a, here, came)
  launched-Fits From a ips c rest (ready failed) from came here others before fits = fits
  launched-Fits From a ips c rest pending from came here others before fits =
      elim (Bool-cases (env.elapsed (env.now + connection_attempt_delay))) [
        | inl at_once ↦ rw at_once tt
        | inr later ↦ rw later (
          others,
          All-append (λ k. P k.address) c.connections
              (record { address = a; is_terminated = false } ∷ []) before (here, tt),
        )
      ]

  launch-Fits :
      (From : S → Type 0) (ips : List IpAddr) (c : HappyEyeballConnector)
      → ((stream : S) → Dialled stream → From stream)
      → All P ips
      → All (λ k. P k.address) c.connections
      → Fits P From (launch env ips c)
  unfolding launch
  launch-Fits From [] c from within before = elim (Bool-cases (not (is_resolving c))) [
    | inl over ↦ rw over tt
    | inr resolving ↦ rw resolving (tt, before)
  ]
  launch-Fits From (a ∷ ips) c from within before =
      launched-Fits From a ips c (launch env ips c) (env.connect a) from refl within.0 within.1
        before (launch-Fits From ips c from within.1 before)

  -- Where the stream of a poll is from, by the state behind the lookups.
  abbrev pub Reports : HappyEyeballConnector → S → Type 0
  Reports c stream = Ongoing 0 c.connections stream ⊎ Dialled stream

  after_fold-Fits :
      (From : S → Type 0) (s : Seen S) (c : HappyEyeballConnector) (o : Option S)
      → ((stream : S) → Dialled stream → From stream)
      → ((stream : S) → o ≡ some stream → From stream)
      → Within P c
      → Fits P From (after_fold env s c o)
  unfolding after_fold
  after_fold-Fits From s c (some stream) from seen within = seen stream refl
  after_fold-Fits From s c none from seen within =
      elim (Bool-cases (not s.has_pending || s.has_error || env.elapsed c.next_connection)) [
        | inl starts ↦ rw starts (launch-Fits From c.ips c from within.0 within.1)
        | inr waits ↦ rw waits within
      ]

  pub poll_ongoing-Fits :
      (c : HappyEyeballConnector) → Within P c → Fits P (Reports c) (poll_ongoing env c)
  unfolding poll_ongoing
  poll_ongoing-Fits c within =
      let seen : Seen S × List Connection = poll_connections env 0 c.connections nothing_seen in
      after_fold-Fits (Reports c) seen.0 (record c { connections = seen.1 }) seen.0.maybe_stream
        (λ stream dialled. inr dialled)
        (λ stream h. elim (poll_connections-found 0 c.connections nothing_seen stream within.1 h) [
          | inl before ↦ absurd (cc)
          | inr came ↦ inl came
        ])
        (within.0, poll_connections-All 0 c.connections nothing_seen within.1)
