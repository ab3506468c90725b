-- ===== src/Tcp/Sound/Connects.antt =====
-- The addresses that the lookups give, and the stream of a whole `connect`.
use dandelion.Prelude.{
  ℕ, List, [], ◌∷◌, map, Bool, true, false, not, ◌&&◌, ◌==◌, if◌then◌else◌, ◌≡◌, ◌⊎◌, inl, inr,
  refl, sym, All, Bool-cases, subst,
}
use dandelion.Net.{IpAddr, v4, v6, SocketAddr}
use dandelion.Endpoint.{domain}
use dandelion.Tcp.{
  Poll, ready, pending, Outcome, good, failed, Polled, connected, gave_up, waiting, panicked,
  HappyEyeballConnector, Env, new, is_resolving, ipv4_done, ipv6_done, poll_lookups, poll, await,
  on_connected, connect,
}
use dandelion.Tcp.Sound.{Within, Fits, Reports, poll_ongoing-Fits}

connected_inj : {S : Type 0} (a b : S) → connected a ≡ connected b → a ≡ b
connected_inj a b e = cc

on_connected-connected :
    {S : Type 0} (f : S → S) (stream : S) (p : Polled S)
    → on_connected f p ≡ connected stream
    → (s : S) × (p ≡ connected s) × (stream ≡ f s)
on_connected-connected f stream (connected s) h = (s, refl, sym (connected_inj (f s) stream h))
on_connected-connected f stream (gave_up e) h = absurd (cc)
on_connected-connected f stream waiting h = absurd (cc)
on_connected-connected f stream panicked h = absurd (cc)

module _ (P : IpAddr → Type 0) where
  abbrev pub Finds : (List ℕ → IpAddr) → Poll (Outcome (List (List ℕ))) → Type 0
  Finds f (ready (good addrs)) = All P (map f addrs)
  Finds f (ready failed) = Unit {0}
  Finds f pending = Unit {0}

  -- The lookups give addresses in `P` alone.
  abbrev pub Answers : {S : Type 0} → Env S → Type 0
  Answers env = Finds v4 env.ipv4_lookup × Finds v6 env.ipv6_lookup

  module _ (interleave : List IpAddr → List IpAddr → List IpAddr)
      (interleave-All : (xs ys : List IpAddr)
        → All P xs
        → All P ys
        → All P (interleave xs ys)) where
    ipv4_done-Within :
        (p : Poll (Outcome (List (List ℕ)))) (c : HappyEyeballConnector)
        → Finds v4 p
        → Within P c
        → Within P (ipv4_done interleave p c)
    ipv4_done-Within (ready (good addrs)) c finds within =
        (interleave-All c.ips (map v4 addrs) within.0 finds, within.1)
    ipv4_done-Within (ready failed) c finds within = within
    ipv4_done-Within pending c finds within = within

    ipv6_done-Within :
        (p : Poll (Outcome (List (List ℕ)))) (c : HappyEyeballConnector)
        → Finds v6 p
        → Within P c
        → Within P (ipv6_done interleave p c)
    ipv6_done-Within (ready (good addrs)) c finds within =
        (interleave-All c.ips (map v6 addrs) within.0 finds, within.1)
    ipv6_done-Within (ready failed) c finds within = within
    ipv6_done-Within pending c finds within = within

    if-Within :
        (b : Bool) (c d : HappyEyeballConnector)
        → Within P c
        → Within P d
        → Within P (if b then c else d)
    if-Within true c d hc hd = hc
    if-Within false c d hc hd = hd

    module _ {S : Type 0} where
      poll_lookups-Within :
          (env : Env S) (c : HappyEyeballConnector)
          → Answers env
          → Within P c
          → Within P (poll_lookups interleave env c)
      unfolding poll_lookups
      poll_lookups-Within env c answers within =
          let c' : HappyEyeballConnector =
            if c.ipv4_terminated then c else ipv4_done interleave env.ipv4_lookup c in
          let within' : Within P c' =
            if-Within c.ipv4_terminated c (ipv4_done interleave env.ipv4_lookup c) within
              (ipv4_done-Within env.ipv4_lookup c answers.0 within) in
          if-Within c'.ipv6_terminated c' (ipv6_done interleave env.ipv6_lookup c') within'
            (ipv6_done-Within env.ipv6_lookup c' answers.1 within')

      poll-Fits :
          (env : Env S) (c : HappyEyeballConnector)
          → Answers env
          → Within P c
          → Fits P (Reports P env (poll_lookups interleave env c)) (poll interleave env c)
      unfolding poll
      poll-Fits env c answers within =
          let c' : HappyEyeballConnector = poll_lookups interleave env c in
          elim (Bool-cases (not (is_resolving c') && c'.ip_count == 0)) [
            | inl nothing ↦ rw nothing tt
            | inr something ↦
                rw something (poll_ongoing-Fits P env c' (poll_lookups-Within env c answers within))
          ]

      -- what `await` makes of a poll
      abbrev continued : List (Env S) → HappyEyeballConnector → Polled S → Polled S
      continued envs c answer = elim answer [
        | waiting ↦ await interleave envs c
        | connected s ↦ connected s
        | gave_up e ↦ gave_up e
        | panicked ↦ panicked
      ]

      -- The stream came in one of the polls, and the polls before it were pending.
      abbrev pub Came : List (Env S) → HappyEyeballConnector → S → Type 0
      Came [] c stream = ⊥
      Came (env ∷ envs) c stream =
          Reports P env (poll_lookups interleave env c) stream
          ⊎ (((poll interleave env c).0 ≡ waiting) × Came envs (poll interleave env c).1 stream)

      await_step :
          (From : S → Type 0) (envs : List (Env S)) (stream : S) (answer : Polled S)
          (c : HappyEyeballConnector)
          → Fits P From (answer, c)
          → (Within P c → await interleave envs c ≡ connected stream → Came envs c stream)
          → continued envs c answer ≡ connected stream
          → From stream ⊎ ((answer ≡ waiting) × Came envs c stream)
      await_step From envs stream (connected x) c fits go h =
          inl (subst From (connected_inj x stream h) fits)
      await_step From envs stream (gave_up e) c fits go h = absurd (cc)
      await_step From envs stream waiting c fits go h = inr (refl, go fits h)
      await_step From envs stream panicked c fits go h = absurd (cc)

      await-Came :
          (envs : List (Env S)) (c : HappyEyeballConnector) (stream : S)
          → All Answers envs
          → Within P c
          → await interleave envs c ≡ connected stream
          → Came envs c stream
      unfolding await
      await-Came [] c stream answers within h = absurd (cc)
      await-Came (env ∷ envs) c stream answers within h =
          await_step (Reports P env (poll_lookups interleave env c)) envs stream
            (poll interleave env c).0 (poll interleave env c).1 (poll-Fits env c answers.0 within)
            (await-Came envs (poll interleave env c).1 stream answers.1) h

      -- Where all addresses that the lookups give are in a set `P`, and `interleave` adds none: the
      -- stream that `connect` returns for a domain, before the keepalive is set, is one that a
      -- connection to an address in `P` came to, in the first poll that is not pending; that
      -- connection was under way and not over, or was made in that poll.
      pub connect-Came :
          (dial : SocketAddr → Polled S) (envs : List ℕ → ℕ → List (Env S)) (keep_alive : S → S)
          (start : ℕ) (host : List ℕ) (port : ℕ) (stream : S)
          → All Answers (envs host port)
          → connect interleave dial envs keep_alive start (domain host port) ≡ connected stream
          → (s : S) × (stream ≡ keep_alive s) × Came (envs host port) (new start) s
      unfolding connect new
      connect-Came dial envs keep_alive start host port stream answers h =
          let (s, e, same) =
            on_connected-connected keep_alive stream (await interleave (envs host port) (new start))
              h in
          (s, same, await-Came (envs host port) (new start) s answers (tt, tt) e)
