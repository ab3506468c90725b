-- ===== src/Tcp/Tests.antt =====
-- The theorems on the TCP connector, each at one connection.
use dandelion.Prelude.{
  ℕ, List, [], ◌∷◌, true, false, ◌||◌, ◌==◌, if◌then◌else◌, ◌≡◌, refl, arith, leb, All, inl, length,
  ◌+◌,
}
use dandelion.Net.{IpAddr, v4, v6}
use dandelion.Tcp.{
  Poll, ready, pending, Outcome, good, failed, connected, gave_up, waiting, failed_to_connect,
  failed_to_resolve, HappyEyeballConnector, Env, new, is_resolving, poll, connect,
}
use dandelion.Tcp.Waiting.{any_live, poll-waiting}
use dandelion.Tcp.GivesUp.{poll-gives_up}
use dandelion.Tcp.Connects.{polled, poll-polled}
use dandelion.Tcp.Sound.Connects.{Came, connect-Came}

abbrev interleave : List IpAddr → List IpAddr → List IpAddr
interleave [] ys = ys
interleave (x ∷ xs) [] = x ∷ xs
interleave (x ∷ xs) (y ∷ ys) = x ∷ y ∷ interleave xs ys

abbrev host : List ℕ
host = 104 ∷ []

abbrev home : List ℕ
home = 127 ∷ 0 ∷ 0 ∷ 1 ∷ []

abbrev near : List ℕ
near = 10 ∷ 0 ∷ 0 ∷ 7 ∷ []

-- A connection that is still pending fails and succeeds with none.
abbrev quiet : ℕ → Env ℕ
quiet now = record {
  ipv4_lookup = ready (good (home ∷ []));
  ipv6_lookup = ready failed;
  connection = λ _. pending;
  connect = λ _. pending;
  now = now;
  elapsed = λ deadline. leb deadline now;
}

-- The first address refuses at once.
abbrev refuses : IpAddr → Poll (Outcome ℕ)
refuses (v4 []) = pending
refuses (v4 (a ∷ rest)) = if a == 127 then ready failed else pending
refuses (v6 octets) = pending

abbrev refusing : Env ℕ
refusing = record (quiet 5) { connect = refuses }

-- One connection is under way, nothing is left.
abbrev last_one : HappyEyeballConnector
last_one = record {
  ipv4_terminated = true;
  ipv6_terminated = true;
  ips = [];
  ip_count = 1;
  connections = record { address = v4 home; is_terminated = false } ∷ [];
  next_connection = 250;
}

poll-waiting_example :
    (is_resolving (poll interleave (quiet 0) (new 0)).1
      || any_live (poll interleave (quiet 0) (new 0)).1.connections)
    ≡ true
unfolding poll new
poll-waiting_example = poll-waiting (quiet 0) interleave (new 0) refl

poll-gives_up_example : (poll interleave (quiet 300) last_one).0 ≡ gave_up failed_to_connect
unfolding is_resolving
poll-gives_up_example =
    poll-gives_up (quiet 300) interleave last_one refl (omega arith) refl (λ _. refl) refl

interleave-All :
    (P : IpAddr → Type 0) (xs ys : List IpAddr) → All P xs → All P ys → All P (interleave xs ys)
interleave-All P [] ys hx hy = hy
interleave-All P (x ∷ xs) [] hx hy = hx
interleave-All P (x ∷ xs) (y ∷ ys) hx hy = (hx.0, (hy.0, interleave-All P xs ys hx.1 hy.1))

-- The connection that is made in the first poll comes to the stream 9 in the second.
abbrev succeeding : Env ℕ
succeeding = record (quiet 100) { connection = λ _. ready (good 9) }

abbrev AtHome : IpAddr → Type 0
AtHome a = a ≡ v4 home

connect-Came_example :
    (s : ℕ) × (9 ≡ s)
    × Came AtHome interleave (interleave-All AtHome) (quiet 0 ∷ succeeding ∷ []) (new 0) s
unfolding connect new
connect-Came_example =
    connect-Came AtHome interleave (interleave-All AtHome) (λ _. waiting)
      (λ h p. quiet 0 ∷ succeeding ∷ []) (λ s. s) 0 host 80 9
      (((refl, tt), tt), (((refl, tt), tt), tt)) refl

length-interleave : (xs ys : List IpAddr) → length (interleave xs ys) ≡ length xs + length ys
length-interleave [] ys = omega arith
length-interleave (x ∷ xs) [] = omega arith
length-interleave (x ∷ xs) (y ∷ ys) = omega (arith, length-interleave xs ys)

poll-polled_example :
    (x : ℕ) × ((poll interleave succeeding (polled interleave (quiet 0 ∷ quiet 50 ∷ []) (new 0))).0
      ≡ connected x)
unfolding poll new
poll-polled_example =
    poll-polled interleave length-interleave 0 (quiet 0 ∷ quiet 50 ∷ []) succeeding 9
      (inl (tt, refl, refl))

-- Nothing is found: the connector fails to resolve.
resolve_test :
    (poll interleave (record (quiet 0) { ipv4_lookup = ready failed }) (new 0)).0
    ≡ gave_up failed_to_resolve
unfolding poll new
resolve_test = refl

-- A connection that is made is returned.
connected_test :
    (poll interleave (record (quiet 300) { connection = λ _. ready (good 7) }) last_one).0
    ≡ connected 7
unfolding poll
connected_test = refl
