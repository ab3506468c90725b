-- ===== src/Quic/Attempts.antt =====
-- The race has attempts to run where the addresses come from name servers.
use dandelion.Prelude.{ℕ, List, [], ◌∷◌, ◌≢◌, map}
use dandelion.Prelude.Exec.{Result, ok, err, continue, ◌>>=◌}
use dandelion.Net.{Text, IpAddr}
use dandelion.Endpoint.{Endpoint, addr, domain}
use dandelion.Resolver.Hickory.{Client, found, lookup_ip}
use dandelion.Resolver.Hickory
use dandelion.Io.{map_err}
use dandelion.Quic.{
  Quinn, Error, panicked, resolver, create_quic_connection, select, try, quinn, attempt,
}

module _ (q : Quinn) (c : Client) where
  -- the errors of a connection over the resolver of name servers
  abbrev Failure : Type 0
  Failure = Error q.Error (Hickory.Error c.Error)

  quinn-ne_panicked :
      {A : Type 0} (r : Result q.Error A) → map_err {F = Failure} quinn r ≢ err panicked
  quinn-ne_panicked (ok a) e = absurd (cc e)
  quinn-ne_panicked (err x) e = absurd (cc e)

  select-ne_panicked :
      (config : q.Config) (host : Text) (port : ℕ) (addrs : List IpAddr) (ip : IpAddr) (w : q.World)
      → (select q {R = Hickory.Error c.Error} (map (attempt config host port) (ip ∷ addrs)) w).0
        ≢ err panicked
  select-ne_panicked config host port addrs ip w =
      quinn-ne_panicked
        (q.select_ok (attempt config host port ip) (map (attempt config host port) addrs) w).0

  configured-ne_panicked :
      (config : Result q.Error q.Config) (host : Text) (port : ℕ) (addrs : List IpAddr)
      (ip : IpAddr) (w : q.World)
      → (continue {E = Failure}
          (λ k. select q (map (attempt k host port) (ip ∷ addrs)))
          (map_err quinn config)
          w).0
        ≢ err panicked
  configured-ne_panicked (ok k) host port addrs ip w = select-ne_panicked k host port addrs ip w
  configured-ne_panicked (err x) host port addrs ip w = λ e. absurd (cc e)

  resolved-ne_panicked :
      (addrs : Result c.Error (List IpAddr)) (alpn : List Text) (host : Text) (port : ℕ)
      (w : q.World)
      → (continue {E = Failure}
          (λ ips.
            try q quinn (q.crypto_config alpn) >>= λ k. select q (map (attempt k host port) ips))
          (map_err resolver (found addrs))
          w).0
        ≢ err panicked
  resolved-ne_panicked (err x) alpn host port w = λ e. absurd (cc e)
  resolved-ne_panicked (ok []) alpn host port w = λ e. absurd (cc e)
  resolved-ne_panicked (ok (ip ∷ addrs)) alpn host port w =
      configured-ne_panicked (q.crypto_config alpn) host port addrs ip w

  -- A connection whose server's name the resolver over name servers looks up never panics, whatever
  -- these answer: where they give no address, the resolver fails first.
  pub create_quic_connection-ne_panicked :
      (server : Endpoint) (alpn_protocols : List Text) (w : q.World)
      → (create_quic_connection q server (lookup_ip c) alpn_protocols w).0 ≢ err panicked
  unfolding create_quic_connection lookup_ip
  create_quic_connection-ne_panicked (addr a) alpn_protocols w = λ e. absurd (cc e)
  create_quic_connection-ne_panicked (domain host port) alpn_protocols w =
      resolved-ne_panicked (c.lookup_ip host) alpn_protocols host port w
