-- ===== src/Tcp.antt =====
-- core/src/core/connector/tcp.rs: a TCP connection to an endpoint, by RFC 8305 ("happy eyeballs")
-- where the endpoint is a domain. A poll is one call of `Future::poll`.
pub mod Waiting
pub mod GivesUp
pub mod Sound
pub mod Connects
pub mod Accounting
pub mod Attempt
mod Tests
use dandelion.Prelude.{
  ℕ, ◌+◌, List, [], ◌∷◌, ◌++◌, map, Option, none, some, Bool, true, false, not, ◌&&◌, ◌||◌, ◌==◌,
  if◌then◌else◌, length,
}
pub use dandelion.Prelude.Exec.{Poll, ready, pending}
use dandelion.Net.{IpAddr, v4, v6, SocketAddr}
use dandelion.Endpoint.{Endpoint, addr, domain}

-- What a lookup or a connection comes to.
pub data Outcome {ℓ} (A : Type ℓ) : Type ℓ where
  good : A → Outcome A
  failed : Outcome A

pub data Error : Type 0 where
  failed_to_resolve failed_to_connect : Error

-- What `poll` returns; `panicked` is its failed assertion.
pub data Polled {ℓ} (S : Type ℓ) : Type ℓ where
  connected : S → Polled S
  gave_up : Error → Polled S
  waiting : Polled S
  panicked : Polled S

-- A connection under way, `connect(..).fuse()`: its address, and whether it has come to its end.
pub record Connection : Type 0 where
  pub address : IpAddr
  pub is_terminated : Bool

pub record HappyEyeballConnector : Type 0 where
  -- `is_terminated` of the two fused lookups
  pub ipv4_terminated : Bool
  pub ipv6_terminated : Bool
  pub ips : List IpAddr
  pub ip_count : ℕ
  pub connections : List Connection
  -- the deadline of `next_connection_timer`, in milliseconds
  pub next_connection : ℕ

-- What the futures that the connector polls report during one poll: the two lookups, the connection
-- at an index, a new connection to an address at its first poll, the clock, and whether a sleep with
-- a deadline has elapsed.
pub record Env (S : Type 0) : Type 0 where
  pub ipv4_lookup : Poll (Outcome (List (List ℕ)))
  pub ipv6_lookup : Poll (Outcome (List (List ℕ)))
  pub connection : ℕ → Poll (Outcome S)
  pub connect : IpAddr → Poll (Outcome S)
  pub now : ℕ
  pub elapsed : ℕ → Bool

-- `CONNECTION_ATTEMPT_DELAY`
abbrev pub connection_attempt_delay : ℕ
connection_attempt_delay = 250

unfoldable pub new : ℕ → HappyEyeballConnector
new now = record {
  ipv4_terminated = false;
  ipv6_terminated = false;
  ips = [];
  ip_count = 0;
  connections = [];
  next_connection = now;
}

unfoldable pub is_resolving : HappyEyeballConnector → Bool
is_resolving c = not (c.ipv4_terminated && c.ipv6_terminated)

-- `Itertools::interleave`, a parameter.
module _ (interleave : List IpAddr → List IpAddr → List IpAddr) where
  -- a lookup that has come to its end adds what it found, if it found something
  abbrev pub add_addresses : List IpAddr → HappyEyeballConnector → HappyEyeballConnector
  add_addresses addrs c = record c {
    ips = interleave c.ips addrs;
    ip_count = c.ip_count + length addrs;
  }

  abbrev pub ipv4_done :
      Poll (Outcome (List (List ℕ))) → HappyEyeballConnector → HappyEyeballConnector
  ipv4_done (ready (good addrs)) c = record (add_addresses (map v4 addrs) c) {
    ipv4_terminated = true;
  }
  ipv4_done (ready failed) c = record c { ipv4_terminated = true }
  ipv4_done pending c = c

  abbrev pub ipv6_done :
      Poll (Outcome (List (List ℕ))) → HappyEyeballConnector → HappyEyeballConnector
  ipv6_done (ready (good addrs)) c = record (add_addresses (map v6 addrs) c) {
    ipv6_terminated = true;
  }
  ipv6_done (ready failed) c = record c { ipv6_terminated = true }
  ipv6_done pending c = c

  -- the first block of `poll`
  unfoldable pub poll_lookups : {S : Type 0} → Env S → HappyEyeballConnector → HappyEyeballConnector
  poll_lookups env c =
      let c' = if c.ipv4_terminated then c else ipv4_done env.ipv4_lookup c in
      if c'.ipv6_terminated then c' else ipv6_done env.ipv6_lookup c'

-- The accumulator of the fold over the connections: `has_pending`, `has_error`, `maybe_stream`.
pub record Seen (S : Type 0) : Type 0 where
  pub has_pending : Bool
  pub has_error : Bool
  pub maybe_stream : Option S

module _ {S : Type 0} where
  abbrev pub see : Poll (Outcome S) → Seen S → Seen S
  see (ready (good stream)) s = record s { maybe_stream = some stream }
  see (ready failed) s = record s { has_error = true; maybe_stream = none }
  see pending s = record s { has_pending = true; maybe_stream = none }

  abbrev pub fused : Poll (Outcome S) → Connection → Connection
  fused (ready _) c = record c { is_terminated = true }
  fused pending c = c

  abbrev pub found : Option S → Bool
  found (some _) = true
  found none = false

  -- the closure of the fold, at the connection with the index `i`
  unfoldable pub poll_connection : Env S → ℕ → Connection → Seen S → Seen S × Connection
  poll_connection env i c s =
      if found s.maybe_stream || c.is_terminated
      then (s, c)
      else (see (env.connection i) s, fused (env.connection i) c)

  unfoldable pub poll_connections : Env S → ℕ → List Connection → Seen S → Seen S × List Connection
  unfolding poll_connection
  poll_connections env i [] s = (s, [])
  poll_connections env i (c ∷ cs) s =
      let (s', c') = poll_connection env i c s in
      let (s2, cs') = poll_connections env (i + 1) cs s' in (s2, c' ∷ cs')

  -- the arms on the first poll of a new connection; `rest` is the next round of the loop
  abbrev pub launched :
      Env S
      → IpAddr
      → List IpAddr
      → HappyEyeballConnector
      → Polled S × HappyEyeballConnector
      → Poll (Outcome S)
      → Polled S × HappyEyeballConnector
  launched env a ips c rest (ready (good s)) = (connected s, record c { ips = ips })
  launched env a ips c rest (ready failed) = rest
  launched env a ips c rest pending =
      let later = env.now + connection_attempt_delay in
      let c' = record c {
        ips = ips;
        next_connection = later;
        connections = c.connections ++ record { address = a; is_terminated = false } ∷ [];
      } in
      if env.elapsed later
      then (panicked, record c { ips = ips; next_connection = later })
      else (waiting, c')

  -- the loop until a connection is under way, over the addresses that are left
  unfoldable pub launch :
      Env S → List IpAddr → HappyEyeballConnector → Polled S × HappyEyeballConnector
  unfolding is_resolving
  launch env [] c =
      if not (is_resolving c)
      then (gave_up failed_to_connect, record c { ips = [] })
      else (waiting, record c { ips = [] })
  launch env (a ∷ ips) c = launched env a ips c (launch env ips c) (env.connect a)

  -- what follows the fold
  unfoldable pub after_fold :
      Env S → Seen S → HappyEyeballConnector → Option S → Polled S × HappyEyeballConnector
  unfolding launch
  after_fold env s c (some stream) = (connected stream, c)
  after_fold env s c none =
      if not s.has_pending || s.has_error || env.elapsed c.next_connection
      then launch env c.ips c
      else (waiting, c)

  abbrev pub nothing_seen : Seen S
  nothing_seen = record { has_pending = false; has_error = false; maybe_stream = none }

  unfoldable pub poll_ongoing : Env S → HappyEyeballConnector → Polled S × HappyEyeballConnector
  unfolding poll_connections after_fold
  poll_ongoing env c =
      let (s, cs) = poll_connections env 0 c.connections nothing_seen in
      after_fold env s (record c { connections = cs }) s.maybe_stream

  unfoldable pub poll :
      (List IpAddr → List IpAddr → List IpAddr)
      → Env S
      → HappyEyeballConnector
      → Polled S × HappyEyeballConnector
  unfolding poll_lookups poll_ongoing is_resolving
  poll interleave env c =
      let c' = poll_lookups interleave env c in
      if not (is_resolving c') && c'.ip_count == 0
      then (gave_up failed_to_resolve, c')
      else poll_ongoing env c'

  -- `await` on the connector: it is polled, once with each `Env`, until a poll is ready; `waiting`
  -- where it is not after the last.
  unfoldable pub await :
      (List IpAddr → List IpAddr → List IpAddr) → List (Env S) → HappyEyeballConnector → Polled S
  unfolding poll
  await interleave [] c = waiting
  await interleave (env ∷ envs) c =
      let (answer, c') = poll interleave env c in
      let rest = await interleave envs c' in
      elim answer [
        | waiting ↦ rest
        | connected s ↦ connected s
        | gave_up e ↦ gave_up e
        | panicked ↦ panicked
      ]

  abbrev pub on_connected : (S → S) → Polled S → Polled S
  on_connected f (connected s) = connected (f s)
  on_connected f (gave_up e) = gave_up e
  on_connected f waiting = waiting
  on_connected f panicked = panicked

  -- `dial` is `TcpStream::connect` on a socket address, `envs` makes the polls for a host and a port,
  -- and `keep_alive` sets the TCP keepalive of a stream.
  unfoldable pub connect :
      (List IpAddr → List IpAddr → List IpAddr)
      → (SocketAddr → Polled S)
      → (List ℕ → ℕ → List (Env S))
      → (S → S)
      → ℕ
      → Endpoint
      → Polled S
  unfolding new await
  connect interleave dial envs keep_alive start (addr a) = dial a
  connect interleave dial envs keep_alive start (domain host port) =
      on_connected keep_alive (await interleave (envs host port) (new start))
