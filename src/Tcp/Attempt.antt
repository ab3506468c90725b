-- ===== src/Tcp/Attempt.antt =====
-- A connection to a host that has a single address.
use dandelion.Prelude.{ℕ, ◌+◌, List, [], ◌∷◌, true, false, ◌≡◌, refl, ap, arith}
use dandelion.Net.{IpAddr, v4, SocketAddr}
use dandelion.Endpoint.{domain}
use dandelion.Tcp.{
  ready, pending, good, failed, Polled, gave_up, waiting, failed_to_connect, HappyEyeballConnector,
  Env, connection_attempt_delay, new, poll_lookups, poll_ongoing, poll_connections, is_resolving,
  after_fold, launch, poll, await, connect,
}
use dandelion.Tcp.GivesUp.{poll-gives_up}

-- The connector while its one connection is under way.
abbrev one_connection : IpAddr → ℕ → HappyEyeballConnector
one_connection a deadline = record {
  ipv4_terminated = true;
  ipv6_terminated = true;
  ips = [];
  ip_count = 1;
  connections = record { address = a; is_terminated = false } ∷ [];
  next_connection = deadline;
}

module _ {S : Type 0} (interleave : List IpAddr → List IpAddr → List IpAddr) where
  first_poll :
      (octets : List ℕ) (start : ℕ) (env : Env S)
      → interleave [] (v4 octets ∷ []) ≡ v4 octets ∷ []
      → env.ipv4_lookup ≡ ready (good (octets ∷ []))
      → env.ipv6_lookup ≡ ready failed
      → env.connect (v4 octets) ≡ pending
      → env.elapsed (env.now + connection_attempt_delay) ≡ false
      → poll interleave env (new start)
        ≡ (waiting, one_connection (v4 octets) (env.now + connection_attempt_delay))
  unfolding poll poll_lookups poll_ongoing new is_resolving poll_connections after_fold launch
  first_poll octets start env joined four six under_way early =
      rw (four, six, joined, under_way, early) refl

  await-waiting :
      (env : Env S) (envs : List (Env S)) (c : HappyEyeballConnector)
      → (poll interleave env c).0 ≡ waiting
      → await interleave (env ∷ envs) c ≡ await interleave envs (poll interleave env c).1
  unfolding await
  await-waiting env envs c h = rw (h, await) refl

  await-gave_up :
      (env : Env S) (envs : List (Env S)) (c : HappyEyeballConnector)
      → (poll interleave env c).0 ≡ gave_up failed_to_connect
      → await interleave (env ∷ envs) c ≡ gave_up failed_to_connect
  unfolding await
  await-gave_up env envs c h = rw (h, await) refl

  -- Where a host has one address, an IPv4 one, and the connection to it is still pending when the
  -- attempt delay is over, the second poll makes `connect` fail: whatever the connection would have
  -- come to in a later poll.
  pub connect-single_address :
      (dial : SocketAddr → Polled S) (keep_alive : S → S) (start port : ℕ) (host octets : List ℕ)
      (first second : Env S) (later : List (Env S))
      → interleave [] (v4 octets ∷ []) ≡ v4 octets ∷ []
      → first.ipv4_lookup ≡ ready (good (octets ∷ []))
      → first.ipv6_lookup ≡ ready failed
      → first.connect (v4 octets) ≡ pending
      → first.elapsed (first.now + connection_attempt_delay) ≡ false
      → ((j : ℕ) → second.connection j ≡ pending)
      → second.elapsed (first.now + connection_attempt_delay) ≡ true
      → connect interleave dial (λ h p. first ∷ second ∷ later) keep_alive start (domain host port)
        ≡ gave_up failed_to_connect
  unfolding connect
  connect-single_address dial keep_alive start port host octets first second later joined four six
        under_way early still late =
      let deadline : ℕ = first.now + connection_attempt_delay in
      let gives : (poll interleave second (one_connection (v4 octets) deadline)).0
          ≡ gave_up failed_to_connect =
        poll-gives_up second interleave (one_connection (v4 octets) deadline) refl (omega arith)
          refl still late in
      let waits = first_poll octets start first joined four six under_way early in
      rw
        (
          await-waiting first (second ∷ later) (new start) (ap (λ r. r.0) waits),
          waits,
          await-gave_up second later (one_connection (v4 octets) deadline) gives,
        )
        refl
