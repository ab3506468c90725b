-- ===== src/Socks5/Acceptor/Accepts.antt =====
-- What the server does on a well-formed exchange.
use dandelion.Prelude.{
  ℕ, ◌+◌, ◌*◌, ◌<◌, [], ◌∷◌, ◌++◌, true, contains, some, ◌≡◌, refl, length, arith,
}
use dandelion.Prelude.Exec.{Exec}
use dandelion.Net.{Text, v4, v6}
use dandelion.Net.Utf8.{is_utf8}
use dandelion.Endpoint.{Endpoint, addr, domain}
use dandelion.Io.{Io, Wire, Talks, IsByteStream, lift}
use dandelion.Io.Rules.{Talks-bind, Talks-pure, Talks-ensure, Talks-lift, Talks-then}
use dandelion.Socks5.Acceptor.{
  Error, IpOrDomain, ip, name, response_to, endpoint_of, read, read_address, greet, take_request,
  handshake, only_no_auth, not_utf8, no_methods,
}

-- The three forms in which a request names its target.
pub data Target : Type 0 where
  ip4 host ip6 : Text → Target

abbrev pub IsTarget : Target → Type 0
IsTarget (ip4 octets) = length octets ≡ 4
IsTarget (host d) = (length d < 256) × (is_utf8 d ≡ true)
IsTarget (ip6 octets) = length octets ≡ 16

abbrev pub address_type : Target → ℕ
address_type (ip4 _) = 1
address_type (host _) = 3
address_type (ip6 _) = 4

abbrev pub address_bytes : Target → Text
address_bytes (ip4 octets) = octets
address_bytes (host d) = length d ∷ d
address_bytes (ip6 octets) = octets

abbrev pub named : Target → IpOrDomain
named (ip4 octets) = ip (v4 octets)
named (host d) = name d
named (ip6 octets) = ip (v6 octets)

abbrev pub answer_bytes : Target → Text
answer_bytes (ip6 _) =
    5 ∷ 0 ∷ 0 ∷ 4 ∷ 0 ∷ 0 ∷ 0 ∷ 0 ∷ 0 ∷ 0 ∷ 0 ∷ 0 ∷ 0 ∷ 0 ∷ 0 ∷ 0 ∷ 0 ∷ 0 ∷ 0 ∷ 0 ∷ 0 ∷ 0 ∷ []
answer_bytes _ = 5 ∷ 0 ∷ 0 ∷ 1 ∷ 0 ∷ 0 ∷ 0 ∷ 0 ∷ 0 ∷ 0 ∷ []

-- The endpoint that a request for the target and the port is for (RFC 1928, section 5).
abbrev pub asked : Target → ℕ → Endpoint
asked (ip4 octets) p = addr (record { ip = v4 octets; port = p; scope_id = 0 })
asked (host d) p = domain d p
asked (ip6 octets) p = addr (record { ip = v6 octets; port = p; scope_id = 0 })

pub endpoint_of-named : (g : Target) (p : ℕ) → endpoint_of (named g) p ≡ asked g p
unfolding endpoint_of
endpoint_of-named (ip4 octets) p = refl
endpoint_of-named (host d) p = refl
endpoint_of-named (ip6 octets) p = refl

response_to-target : (g : Target) → response_to (address_type g) ≡ some (answer_bytes g)
unfolding response_to
response_to-target (ip4 _) = refl
response_to-target (host _) = refl
response_to-target (ip6 _) = refl

module _ (io : Io) (w : Wire io) (stream : IsByteStream io w) where
  pub read-Talks : (n : ℕ) (bs : Text) → length bs ≡ n → Talks io w (read io n) bs [] bs
  read-Talks n bs h = rw (← h) (Talks-lift io w Error.io _ bs [] bs (stream.read_exact-Talks bs))

  greet-Talks :
      (methods : Text)
      → 0 < length methods
      → contains methods 0 ≡ true
      → Talks io w (greet io) (5 ∷ length methods ∷ methods) (5 ∷ 0 ∷ []) tt
  unfolding greet
  greet-Talks methods some_method no_auth =
      Talks-bind io w _ _ (5 ∷ length methods ∷ []) tt (5 ∷ length methods ∷ []) methods [] _
        (read-Talks 2 _ refl)
        (Talks-ensure io w _ (no_methods) _ methods (5 ∷ 0 ∷ []) tt (ground arith) (
          Talks-then io w _ _ methods tt methods (5 ∷ 0 ∷ []) (read-Talks _ methods refl) (
            Talks-ensure io w _ only_no_auth _ [] (5 ∷ 0 ∷ []) tt no_auth
              (Talks-lift io w Error.io _ [] _ tt (stream.write_all-Talks _)))))

  read_address-Talks :
      (g : Target)
      → IsTarget g
      → Talks io w (read_address io (address_type g)) (address_bytes g) [] (named g)
  unfolding read_address
  read_address-Talks (ip4 octets) h =
      Talks-then io w _ _ octets _ octets [] (read-Talks 4 octets h) (Talks-pure io w _)
  read_address-Talks (ip6 octets) h =
      Talks-then io w _ _ octets _ octets [] (read-Talks 16 octets h) (Talks-pure io w _)
  read_address-Talks (host d) h =
      Talks-bind io w _ _ (length d) (name d) (length d ∷ []) d [] []
        (Talks-lift io w Error.io _ _ _ _ (stream.read_u8-Talks (length d) h.0))
        (Talks-then io w _ _ d _ d [] (read-Talks _ d refl)
          (Talks-ensure io w _ not_utf8 _ [] [] (name d) h.1 (Talks-pure io w _)))

  take_request-Talks :
      (reserved hi lo : ℕ) (g : Target)
      → IsTarget g
      → hi < 256
      → lo < 256
      → Talks io w
          (take_request io)
          (5 ∷ 1 ∷ reserved ∷ address_type g ∷ (address_bytes g ++ hi ∷ lo ∷ []))
          []
          (endpoint_of (named g) (hi * 256 + lo), lift Error.io (io.write_all (answer_bytes g)))
  unfolding take_request
  take_request-Talks reserved hi lo g h hi_byte lo_byte =
      Talks-bind io w _ _ (5 ∷ 1 ∷ reserved ∷ address_type g ∷ []) _
        (5 ∷ 1 ∷ reserved ∷ address_type g ∷ []) (address_bytes g ++ hi ∷ lo ∷ []) [] []
        (read-Talks 4 _ refl)
        (Talks-bind io w _ _ (named g) _ (address_bytes g) (hi ∷ lo ∷ []) [] []
          (read_address-Talks g h)
          (Talks-then io w _ _ (hi * 256 + lo) _ (hi ∷ lo ∷ []) []
            (Talks-lift io w Error.io _ _ _ _ (stream.read_u16-Talks hi lo hi_byte lo_byte))
            (rw (response_to-target g) (Talks-pure io w _))))

  -- On a connection that is open and behaves as tokio documents, a greeting that offers the method
  -- "no authentication" and a well-formed CONNECT request for an IPv4 address, a UTF-8 name of at
  -- most 255 bytes or an IPv6 address are answered by `5 0` alone, exactly their bytes are read,
  -- and the endpoint is the one that the request names; the future that is handed back then reads
  -- nothing and sends the answer for the request's kind of address.
  pub handshake-accepts :
      (methods : Text) (reserved hi lo : ℕ) (g : Target)
      → 0 < length methods
      → contains methods 0 ≡ true
      → IsTarget g
      → hi < 256
      → lo < 256
      → (finish : Exec Error io.State (Unit {0})) × Talks io w
          (handshake io)
          ((5 ∷ length methods ∷ methods)
            ++ 5 ∷ 1 ∷ reserved ∷ address_type g ∷ (address_bytes g ++ hi ∷ lo ∷ []))
          (5 ∷ 0 ∷ [])
          (asked g (hi * 256 + lo), finish)
        × Talks io w finish [] (answer_bytes g) tt
  unfolding handshake
  handshake-accepts methods reserved hi lo g some_method no_auth h hi_byte lo_byte = (
    lift Error.io (io.write_all (answer_bytes g)),
    Talks-bind io w _ _ tt _ (5 ∷ length methods ∷ methods) _ (5 ∷ 0 ∷ []) []
        (greet-Talks methods some_method no_auth)
        (rw (← endpoint_of-named g (hi * 256 + lo))
          (take_request-Talks reserved hi lo g h hi_byte lo_byte)),
    Talks-lift io w Error.io _ [] _ tt (stream.write_all-Talks _),
  )
