-- ===== src/Tcp/Waiting.antt =====
-- A poll that returns `Pending` leaves something that will wake the task.
use dandelion.Prelude.{
  ℕ, ◌+◌, List, [], ◌∷◌, ◌++◌, Option, none, some, Bool, true, false, not, ◌||◌, ◌≡◌, ◌⊎◌, inl, inr,
  refl, arith, Bool-cases,
}
use dandelion.Net.{IpAddr}
use dandelion.Tcp.{
  waiting, Connection, HappyEyeballConnector, Env, Seen, is_resolving, poll_lookups,
  poll_connection, poll_connections, launch, after_fold, poll_ongoing, poll, nothing_seen,
}

-- Some connection has not come to its end.
abbrev pub any_live : List Connection → Bool
any_live [] = false
any_live (c ∷ cs) = not c.is_terminated || any_live cs

any_live-append : (cs ds : List Connection) → any_live ds ≡ true → any_live (cs ++ ds) ≡ true
any_live-append [] ds h = h
any_live-append (c ∷ cs) ds h = ground (arith, any_live-append cs ds h)

module _ {S : Type 0} (env : Env S) where
  connection_live :
      (i : ℕ) (c : Connection) (s : Seen S)
      → (poll_connection env i c s).0.has_pending ≡ true
      → (s.has_pending ≡ true) ⊎ ((poll_connection env i c s).1.is_terminated ≡ false)
  unfolding poll_connection
  connection_live i c s h = ground arith

  connections_live :
      (i : ℕ) (cs : List Connection) (s : Seen S)
      → (poll_connections env i cs s).0.has_pending ≡ true
      → (s.has_pending ≡ true) ⊎ (any_live (poll_connections env i cs s).1 ≡ true)
  unfolding poll_connections
  connections_live i [] s h = inl h
  connections_live i (c ∷ cs) s h =
      ground
        (arith, connections_live (i + 1) cs (poll_connection env i c s).0 h, connection_live i c s)

  -- what a waiting connector waits for
  abbrev pub is_awaited : HappyEyeballConnector → Bool
  is_awaited c = is_resolving c || any_live c.connections

  launch_awaited :
      (ips : List IpAddr) (c : HappyEyeballConnector)
      → (launch env ips c).0 ≡ waiting
      → is_awaited (launch env ips c).1 ≡ true
  unfolding launch
  launch_awaited [] c h = ground arith
  launch_awaited (a ∷ ips) c h = ground (
    arith,
    launch_awaited ips c,
    any_live-append c.connections (record { address = a; is_terminated = false } ∷ []) refl,
  )

  after_fold_awaited :
      (s : Seen S) (c : HappyEyeballConnector) (o : Option S)
      → (s.has_pending ≡ true → any_live c.connections ≡ true)
      → (after_fold env s c o).0 ≡ waiting
      → is_awaited (after_fold env s c o).1 ≡ true
  unfolding after_fold
  after_fold_awaited s c (some stream) live h = absurd (ground arith)
  after_fold_awaited s c none live h =
      elim (Bool-cases (not s.has_pending || s.has_error || env.elapsed c.next_connection)) [
        | inl start ↦ ground (arith, launch_awaited c.ips c)
        | inr keep ↦ ground (arith, live)
      ]

  poll_ongoing_awaited :
      (c : HappyEyeballConnector)
      → (poll_ongoing env c).0 ≡ waiting
      → is_awaited (poll_ongoing env c).1 ≡ true
  unfolding poll_ongoing
  poll_ongoing_awaited c =
      let seen : Seen S × List Connection = poll_connections env 0 c.connections nothing_seen in
      after_fold_awaited seen.0 (record c { connections = seen.1 }) seen.0.maybe_stream
        λ h. elim (connections_live 0 c.connections nothing_seen h) [
          | inl none_yet ↦ absurd (ground arith)
          | inr live ↦ live
        ]

  -- Where a poll returns that it is pending, a lookup or a connection is still under way in the
  -- state that it leaves, so that something will wake the task; it never waits for the timer alone.
  pub poll-waiting :
      (interleave : List IpAddr → List IpAddr → List IpAddr) (c : HappyEyeballConnector)
      → (poll interleave env c).0 ≡ waiting
      → (is_resolving (poll interleave env c).1 || any_live (poll interleave env c).1.connections)
        ≡ true
  unfolding poll
  poll-waiting interleave c h = ground (arith, poll_ongoing_awaited (poll_lookups interleave env c))
