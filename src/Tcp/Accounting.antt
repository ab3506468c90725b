-- ===== src/Tcp/Accounting.antt =====
-- How the connector keeps count of the addresses that it was given.
use dandelion.Prelude.{
  ℕ, ◌+◌, ◌≤◌, List, [], ◌∷◌, ◌++◌, map, Option, none, some, Bool, true, false, if◌then◌else◌, ◌≡◌,
  refl, arith, length, length-append, All,
}
use dandelion.Net.{IpAddr, v4, v6}
use dandelion.Tcp.{
  Poll, ready, pending, Outcome, good, failed, Connection, HappyEyeballConnector, Env, Seen,
  poll_lookups, poll_connection, poll_connections, launch, after_fold, poll_ongoing, poll,
  nothing_seen, ipv4_done, ipv6_done, waiting, connection_attempt_delay,
}

-- The addresses left and the connections under way are among those counted.
abbrev pub IsAccounted : HappyEyeballConnector → Type 0
IsAccounted c = length c.connections + length c.ips ≤ c.ip_count

if-IsAccounted :
    (c d : HappyEyeballConnector) (b : Bool)
    → IsAccounted c
    → IsAccounted d
    → IsAccounted (if b then c else d)
if-IsAccounted c d true hc hd = hc
if-IsAccounted c d false hc hd = hd

length-map {ℓ κ} :
    {A : Type ℓ} {B : Type κ} (f : A → B) (xs : List A) → length (map f xs) ≡ length xs
length-map f [] = refl
length-map f (x ∷ xs) = ground (arith, length-map f xs)

module _ {S : Type 0} (env : Env S) where
  length-poll_connections :
      (i : ℕ) (cs : List Connection) (s : Seen S)
      → length (poll_connections env i cs s).1 ≡ length cs
  unfolding poll_connections
  length-poll_connections i [] s = refl
  length-poll_connections i (c ∷ cs) s =
      ground (arith, length-poll_connections (i + 1) cs (poll_connection env i c s).0)

  launch-IsAccounted :
      (ips : List IpAddr) (c : HappyEyeballConnector)
      → length c.connections + length ips ≤ c.ip_count
      → IsAccounted (launch env ips c).1
  unfolding launch
  launch-IsAccounted [] c h = ground arith
  launch-IsAccounted (a ∷ ips) c h = ground (
    arith,
    launch-IsAccounted ips c,
    length-append c.connections (record { address = a; is_terminated = false } ∷ []),
  )

  after_fold-IsAccounted :
      (s : Seen S) (c : HappyEyeballConnector) (o : Option S)
      → IsAccounted c
      → IsAccounted (after_fold env s c o).1
  unfolding after_fold
  after_fold-IsAccounted s c (some stream) h = h
  after_fold-IsAccounted s c none h = ground (arith, launch-IsAccounted c.ips c)

  poll_ongoing-IsAccounted :
      (c : HappyEyeballConnector) → IsAccounted c → IsAccounted (poll_ongoing env c).1
  unfolding poll_ongoing
  poll_ongoing-IsAccounted c h =
      let seen : Seen S × List Connection = poll_connections env 0 c.connections nothing_seen in
      after_fold-IsAccounted seen.0 (record c { connections = seen.1 }) seen.0.maybe_stream
        (ground (arith, length-poll_connections 0 c.connections nothing_seen))

  module _ (interleave : List IpAddr → List IpAddr → List IpAddr)
      (length-interleave : (xs ys : List IpAddr)
        → length (interleave xs ys) ≡ length xs + length ys) where
    ipv4_done-IsAccounted :
        (p : Poll (Outcome (List (List ℕ)))) (c : HappyEyeballConnector)
        → IsAccounted c
        → IsAccounted (ipv4_done interleave p c)
    ipv4_done-IsAccounted (ready (good addrs)) c h =
        ground (arith, length-interleave c.ips (map v4 addrs), length-map v4 addrs)
    ipv4_done-IsAccounted (ready failed) c h = h
    ipv4_done-IsAccounted pending c h = h

    ipv6_done-IsAccounted :
        (p : Poll (Outcome (List (List ℕ)))) (c : HappyEyeballConnector)
        → IsAccounted c
        → IsAccounted (ipv6_done interleave p c)
    ipv6_done-IsAccounted (ready (good addrs)) c h =
        ground (arith, length-interleave c.ips (map v6 addrs), length-map v6 addrs)
    ipv6_done-IsAccounted (ready failed) c h = h
    ipv6_done-IsAccounted pending c h = h

    poll_lookups-IsAccounted :
        (c : HappyEyeballConnector) → IsAccounted c → IsAccounted (poll_lookups interleave env c)
    unfolding poll_lookups
    poll_lookups-IsAccounted c h =
        let c' : HappyEyeballConnector =
          if c.ipv4_terminated then c else ipv4_done interleave env.ipv4_lookup c in
        let h' : IsAccounted c' =
          if-IsAccounted _ _ c.ipv4_terminated h (ipv4_done-IsAccounted env.ipv4_lookup c h) in
        if-IsAccounted _ _ c'.ipv6_terminated h' (ipv6_done-IsAccounted env.ipv6_lookup c' h')

    -- A poll keeps the connections under way and the addresses left within the count of addresses,
    -- which the test for a failed lookup reads, where `interleave` loses and repeats no element.
    pub poll-IsAccounted :
        (c : HappyEyeballConnector) → IsAccounted c → IsAccounted (poll interleave env c).1
    unfolding poll
    poll-IsAccounted c h = ground (
      arith,
      poll_lookups-IsAccounted c h,
      poll_ongoing-IsAccounted (poll_lookups interleave env c),
    )

  -- Where the connections to the addresses before `a` fail at once, the one to `a` is under way and
  -- the new timer has not elapsed at once, the loop leaves exactly the connection to `a` added at the
  -- end, the addresses after `a`, and the timer at the attempt delay from now.
  pub launch-next :
      (before : List IpAddr) (a : IpAddr) (after : List IpAddr) (c : HappyEyeballConnector)
      → All (λ b. env.connect b ≡ ready failed) before
      → env.connect a ≡ pending
      → env.elapsed (env.now + connection_attempt_delay) ≡ false
      → launch env (before ++ a ∷ after) c ≡ (
        waiting,
        record c {
          ips = after;
          next_connection = env.now + connection_attempt_delay;
          connections = c.connections ++ record { address = a; is_terminated = false } ∷ [];
        },
      )
  unfolding launch
  launch-next [] a after c fails under_way early = ground arith
  launch-next (b ∷ before) a after c (fail, fails) under_way early =
      rw fail (launch-next before a after c fails under_way early)
