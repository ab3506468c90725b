-- ===== src/Tcp/Connects.antt =====
-- A connection under way that has come to a stream is not passed over.
use dandelion.Prelude.{
  ℕ, ◌+◌, ◌≤◌, List, [], ◌∷◌, some, Bool, true, false, not, ◌&&◌, ◌==◌, if◌then◌else◌, ◌≡◌, inl,
  inr, refl, sym, ◌∙◌, arith, length, Option-cases, subst,
}
use dandelion.Net.{IpAddr}
use dandelion.Tcp.{
  Poll, ready, pending, Outcome, good, failed, connected, Connection, HappyEyeballConnector, Env,
  Seen, is_resolving, ipv4_done, ipv6_done, poll_lookups, poll_connection, poll_connections,
  after_fold, nothing_seen, poll_ongoing, poll, new,
}
use dandelion.Tcp.Accounting.{IsAccounted, poll-IsAccounted}
use dandelion.Tcp.Sound.{Ongoing}

abbrev pub Anywhere : IpAddr → Type 0
Anywhere a = Unit {0}

module _ {S : Type 0} (env : Env S) where
  poll_connection-keeps :
      (i : ℕ) (c : Connection) (s : Seen S) (x : S)
      → s.maybe_stream ≡ some x
      → (poll_connection env i c s).0.maybe_stream ≡ some x
  unfolding poll_connection
  poll_connection-keeps i c s x e = ground arith

  poll_connections-keeps :
      (i : ℕ) (cs : List Connection) (s : Seen S) (x : S)
      → s.maybe_stream ≡ some x
      → (poll_connections env i cs s).0.maybe_stream ≡ some x
  unfolding poll_connections
  poll_connections-keeps i [] s x e = e
  poll_connections-keeps i (c ∷ cs) s x e =
      poll_connections-keeps (i + 1) cs (poll_connection env i c s).0 x
        (poll_connection-keeps i c s x e)

  poll_connection-finds :
      (i : ℕ) (c : Connection) (s : Seen S) (stream : S)
      → c.is_terminated ≡ false
      → env.connection i ≡ ready (good stream)
      → (x : S) × ((poll_connection env i c s).0.maybe_stream ≡ some x)
  poll_connection-finds i c s stream live came = elim (Option-cases s.maybe_stream) [
    | inr (x, before) ↦ (x, poll_connection-keeps i c s x before)
    | inl nothing ↦ (stream, unfold poll_connection in rw (nothing, live, came) refl)
  ]

  poll_connections-finds :
      (i : ℕ) (cs : List Connection) (s : Seen S) (stream : S)
      → Ongoing Anywhere env i cs stream
      → (x : S) × ((poll_connections env i cs s).0.maybe_stream ≡ some x)
  unfolding poll_connections
  poll_connections-finds i [] s stream h = absurd h
  poll_connections-finds i (c ∷ cs) s stream (inl (_, live, came)) =
      let (x, here) = poll_connection-finds i c s stream live came in
      (x, poll_connections-keeps (i + 1) cs (poll_connection env i c s).0 x here)
  poll_connections-finds i (c ∷ cs) s stream (inr later) =
      poll_connections-finds (i + 1) cs (poll_connection env i c s).0 stream later

  poll_ongoing-connected :
      (c : HappyEyeballConnector) (stream : S)
      → Ongoing Anywhere env 0 c.connections stream
      → (x : S) × ((poll_ongoing env c).0 ≡ connected x)
  unfolding poll_ongoing after_fold
  poll_ongoing-connected c stream h =
      let (x, e) = poll_connections-finds 0 c.connections nothing_seen stream h in
      (x, rw (e, after_fold) refl)

  Ongoing-length :
      (i : ℕ) (cs : List Connection) (stream : S) → Ongoing Anywhere env i cs stream → 1 ≤ length cs
  Ongoing-length i [] stream h = absurd h
  Ongoing-length i (c ∷ cs) stream h = omega arith

  module _ (interleave : List IpAddr → List IpAddr → List IpAddr) where
    -- The lookups leave the connections under way, and their count only grows.
    abbrev Grows : HappyEyeballConnector → HappyEyeballConnector → Type 0
    Grows c c' = (c'.connections ≡ c.connections) × (c.ip_count ≤ c'.ip_count)

    ipv4_done-Grows :
        (p : Poll (Outcome (List (List ℕ)))) (c : HappyEyeballConnector)
        → Grows c (ipv4_done interleave p c)
    ipv4_done-Grows (ready (good addrs)) c = (refl, omega arith)
    ipv4_done-Grows (ready failed) c = (refl, omega arith)
    ipv4_done-Grows pending c = (refl, omega arith)

    ipv6_done-Grows :
        (p : Poll (Outcome (List (List ℕ)))) (c : HappyEyeballConnector)
        → Grows c (ipv6_done interleave p c)
    ipv6_done-Grows (ready (good addrs)) c = (refl, omega arith)
    ipv6_done-Grows (ready failed) c = (refl, omega arith)
    ipv6_done-Grows pending c = (refl, omega arith)

    if-Grows : (b : Bool) (c d : HappyEyeballConnector) → Grows c d → Grows c (if b then c else d)
    if-Grows true c d h = (refl, omega arith)
    if-Grows false c d h = h

    poll_lookups-Grows : (c : HappyEyeballConnector) → Grows c (poll_lookups interleave env c)
    unfolding poll_lookups
    poll_lookups-Grows c =
        let d : HappyEyeballConnector = ipv4_done interleave env.ipv4_lookup c in
        let c' : HappyEyeballConnector = if c.ipv4_terminated then c else d in
        let (same, more) = if-Grows c.ipv4_terminated c d (ipv4_done-Grows env.ipv4_lookup c) in
        let (same', more') =
          if-Grows c'.ipv6_terminated c' (ipv6_done interleave env.ipv6_lookup c')
            (ipv6_done-Grows env.ipv6_lookup c') in
        (same' ∙ same, omega arith)

    poll-connected :
        (c : HappyEyeballConnector) (stream : S)
        → IsAccounted c
        → Ongoing Anywhere env 0 c.connections stream
        → (x : S) × ((poll interleave env c).0 ≡ connected x)
    unfolding poll
    poll-connected c stream accounted h =
        let c' : HappyEyeballConnector = poll_lookups interleave env c in
        let (same, more) = poll_lookups-Grows c in
        let some_address : (c'.ip_count == 0) ≡ false =
          ground (arith, Ongoing-length 0 c.connections stream h) in
        let counted : (not (is_resolving c') && c'.ip_count == 0) ≡ false = ground arith in
        let (x, e) =
          poll_ongoing-connected c' stream
            (subst (λ cs. Ongoing Anywhere env 0 cs stream) (sym same) h) in
        (x, rw counted e)

module _ {S : Type 0} (interleave : List IpAddr → List IpAddr → List IpAddr) where
  -- the state behind some polls
  abbrev pub polled : List (Env S) → HappyEyeballConnector → HappyEyeballConnector
  polled [] c = c
  polled (env ∷ envs) c = polled envs (poll interleave env c).1

module _ {S : Type 0} (interleave : List IpAddr → List IpAddr → List IpAddr)
    (length-interleave : (xs ys : List IpAddr)
      → length (interleave xs ys) ≡ length xs + length ys) where
  polled-IsAccounted :
      (envs : List (Env S)) (c : HappyEyeballConnector)
      → IsAccounted c
      → IsAccounted (polled interleave envs c)
  polled-IsAccounted [] c h = h
  polled-IsAccounted (env ∷ envs) c h =
      polled-IsAccounted envs (poll interleave env c).1
        (poll-IsAccounted env interleave length-interleave c h)

  -- Where `interleave` loses and repeats no element: after any polls of a new connector, a poll at
  -- which one of the connections that are not over comes to a stream returns a stream, whatever the
  -- lookups, the other connections and the timer do.
  pub poll-polled :
      (start : ℕ) (envs : List (Env S)) (env : Env S) (stream : S)
      → Ongoing Anywhere env 0 (polled interleave envs (new start)).connections stream
      → (x : S) × ((poll interleave env (polled interleave envs (new start))).0 ≡ connected x)
  unfolding new
  poll-polled start envs env stream h =
      poll-connected env interleave (polled interleave envs (new start)) stream
        (polled-IsAccounted envs (new start) (omega arith)) h
