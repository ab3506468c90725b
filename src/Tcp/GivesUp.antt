-- ===== src/Tcp/GivesUp.antt =====
-- When the connector gives up.
use dandelion.Prelude.{
  ℕ, ◌+◌, List, [], ◌∷◌, Option, none, some, true, false, ◌≡◌, ◌≢◌, refl, arith,
}
use dandelion.Net.{IpAddr}
use dandelion.Tcp.{
  pending, gave_up, Connection, HappyEyeballConnector, Env, Seen, is_resolving, poll_lookups,
  poll_connection, poll_connections, launch, after_fold, poll_ongoing, poll, nothing_seen,
  failed_to_connect,
}

module _ {S : Type 0} (env : Env S) where
  no_stream :
      (i : ℕ) (cs : List Connection) (s : Seen S)
      → ((j : ℕ) → env.connection j ≡ pending)
      → s.maybe_stream ≡ none
      → (poll_connections env i cs s).0.maybe_stream ≡ none
  unfolding poll_connections
  no_stream i [] s all h = h
  no_stream i (c ∷ cs) s all h =
      no_stream (i + 1) cs (poll_connection env i c s).0 all (ground (arith, all i))

  after_fold-elapsed :
      (s : Seen S) (c : HappyEyeballConnector)
      → is_resolving c ≡ false
      → c.ips ≡ []
      → env.elapsed c.next_connection ≡ true
      → (after_fold env s c none).0 ≡ gave_up failed_to_connect
  unfolding after_fold is_resolving
  after_fold-elapsed s c done empty late = rw (empty, late) (ground arith)

  launch-gave_up :
      (ips : List IpAddr) (c : HappyEyeballConnector)
      → (launch env ips c).0 ≡ gave_up failed_to_connect
      → ((launch env ips c).1.ips ≡ []) × (is_resolving (launch env ips c).1 ≡ false)
  unfolding launch
  launch-gave_up [] c h = ground arith
  launch-gave_up (a ∷ ips) c h = ground (arith, launch-gave_up ips c)

  after_fold-gave_up :
      (s : Seen S) (c : HappyEyeballConnector) (o : Option S)
      → (after_fold env s c o).0 ≡ gave_up failed_to_connect
      → ((after_fold env s c o).1.ips ≡ []) × (is_resolving (after_fold env s c o).1 ≡ false)
  unfolding after_fold
  after_fold-gave_up s c (some stream) h = absurd (ground arith)
  after_fold-gave_up s c none h = ground (arith, launch-gave_up c.ips c)

  poll_ongoing-gave_up :
      (c : HappyEyeballConnector)
      → (poll_ongoing env c).0 ≡ gave_up failed_to_connect
      → ((poll_ongoing env c).1.ips ≡ []) × (is_resolving (poll_ongoing env c).1 ≡ false)
  unfolding poll_ongoing
  poll_ongoing-gave_up c =
      let seen : Seen S × List Connection = poll_connections env 0 c.connections nothing_seen in
      after_fold-gave_up seen.0 (record c { connections = seen.1 }) seen.0.maybe_stream

  -- A poll that reports that it failed to connect has tried every address it had and has both
  -- lookups behind it: no address is left in the state that it leaves.
  poll-gave_up :
      (interleave : List IpAddr → List IpAddr → List IpAddr) (c : HappyEyeballConnector)
      → (poll interleave env c).0 ≡ gave_up failed_to_connect
      → ((poll interleave env c).1.ips ≡ []) × (is_resolving (poll interleave env c).1 ≡ false)
  unfolding poll
  poll-gave_up interleave c h = ground (arith, poll_ongoing-gave_up (poll_lookups interleave env c))

  poll_lookups-done :
      (interleave : List IpAddr → List IpAddr → List IpAddr) (c : HappyEyeballConnector)
      → is_resolving c ≡ false
      → poll_lookups interleave env c ≡ c
  unfolding poll_lookups is_resolving
  poll_lookups-done interleave c h = ground arith

  poll_ongoing-elapsed :
      (c : HappyEyeballConnector)
      → is_resolving c ≡ false
      → c.ips ≡ []
      → ((j : ℕ) → env.connection j ≡ pending)
      → env.elapsed c.next_connection ≡ true
      → (poll_ongoing env c).0 ≡ gave_up failed_to_connect
  unfolding poll_ongoing
  poll_ongoing-elapsed c done empty all late =
      let seen : Seen S × List Connection = poll_connections env 0 c.connections nothing_seen in
      ground (
        arith,
        no_stream 0 c.connections nothing_seen all refl,
        after_fold-elapsed seen.0 (record c { connections = seen.1 }) done empty late,
      )

  -- Once both lookups are over and every address has been tried, a poll after the attempt delay
  -- gives up, although every connection under way is still pending and could succeed.
  pub poll-gives_up :
      (interleave : List IpAddr → List IpAddr → List IpAddr) (c : HappyEyeballConnector)
      → is_resolving c ≡ false
      → c.ip_count ≢ 0
      → c.ips ≡ []
      → ((j : ℕ) → env.connection j ≡ pending)
      → env.elapsed c.next_connection ≡ true
      → (poll interleave env c).0 ≡ gave_up failed_to_connect
  unfolding poll
  poll-gives_up interleave c done some_ip empty all late =
      ground
        (arith, poll_lookups-done interleave c done, poll_ongoing-elapsed c done empty all late)
