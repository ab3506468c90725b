-- ===== src/Socks5/Acceptor/Sound.antt =====
-- What the server has read whenever its handshake succeeds.
use dandelion.Prelude.{
  ℕ, ◌+◌, ◌*◌, ◌<◌, [], ◌∷◌, ◌++◌, true, not, ◌==◌, contains, ◌≡◌, refl, sym, length, arith,
  append-nil, ap,
}
use dandelion.Prelude.Exec.{Exec, ok}
use mathlib.Core.Path.{subst, ◌∙◌}
use dandelion.Net.{Text, v4, v6}
use dandelion.Net.Utf8.{is_utf8}
use dandelion.Endpoint.{Endpoint}
use dandelion.Io.{Io, Wire, Takes, ReportsSuccess, lift}
use dandelion.Io.Rules.{
  Takes-bind, Takes-pure, Takes-ensure, Takes-lift, Takes-weaken, Takes-if, Takes-bail, Takes-ok_or,
}
use dandelion.Socks5.Acceptor.{
  Error, IpOrDomain, ip, name, at, response_to, read, read_ip4, read_name, read_ip6, read_address,
  greet, take_request, handshake, panicked,
}
use dandelion.Socks5.Acceptor.Accepts.{
  Target, ip4, host, ip6, IsTarget, address_type, address_bytes, named, asked, endpoint_of-named,
}

-- A greeting that offers "no authentication".
pub record IsGreeting (r : Text) : Type 0 where
  pub methods : Text
  pub some_method : 0 < length methods
  pub no_auth : contains methods 0 ≡ true
  pub bytes : r ≡ 5 ∷ length methods ∷ methods

-- A CONNECT request for the endpoint.
pub record IsRequest (e : Endpoint) (r : Text) : Type 0 where
  pub reserved : ℕ
  pub target : Target
  pub hi : ℕ
  pub lo : ℕ
  pub is_target : IsTarget target
  pub hi_byte : hi < 256
  pub lo_byte : lo < 256
  pub bytes : r ≡ 5 ∷ 1 ∷ reserved ∷ address_type target ∷ (address_bytes target ++ hi ∷ lo ∷ [])
  pub names : e ≡ asked target (hi * 256 + lo)

-- An address of the given type.
pub record IsAddress (kind : ℕ) (a : IpOrDomain) (r : Text) : Type 0 where
  pub target : Target
  pub is_target : IsTarget target
  pub of_kind : kind ≡ address_type target
  pub bytes : r ≡ address_bytes target
  pub names : a ≡ named target

two_bytes : (bs : Text) → length bs ≡ 2 → bs ≡ at 0 bs ∷ at 1 bs ∷ []
two_bytes (a ∷ b ∷ []) h = refl
two_bytes [] h = absurd (omega arith)
two_bytes (a ∷ []) h = absurd (omega arith)
two_bytes (a ∷ b ∷ c ∷ bs) h = absurd (omega arith)

four_bytes : (bs : Text) → length bs ≡ 4 → bs ≡ at 0 bs ∷ at 1 bs ∷ at 2 bs ∷ at 3 bs ∷ []
four_bytes (a ∷ b ∷ c ∷ d ∷ []) h = refl
four_bytes [] h = absurd (omega arith)
four_bytes (a ∷ []) h = absurd (omega arith)
four_bytes (a ∷ b ∷ []) h = absurd (omega arith)
four_bytes (a ∷ b ∷ c ∷ []) h = absurd (omega arith)
four_bytes (a ∷ b ∷ c ∷ d ∷ e ∷ bs) h = absurd (omega arith)

-- The bytes of a greeting, from its two reads.
greeting :
    (hello r methods r' : Text)
    → r ≡ hello
    → length hello ≡ 2
    → (at 0 hello == 5) ≡ true
    → not (at 1 hello == 0) ≡ true
    → r' ≡ methods
    → length methods ≡ at 1 hello
    → contains methods 0 ≡ true
    → IsGreeting (r ++ r')
greeting hello r methods r' taken two v5 some_method taken' count no_auth =
    let five : at 0 hello ≡ 5 = ground arith in
    record {
      methods = methods;
      some_method = ground arith;
      no_auth = no_auth;
      bytes = rw (taken, taken', two_bytes hello two, five, count) refl;
    }

-- The bytes of a request, from its three reads.
request_line :
    (head r r' r2 : Text) (kind hi lo : ℕ) (g : Target)
    → r ≡ head
    → length head ≡ 4
    → (at 0 head == 5) ≡ true
    → (at 1 head == 1) ≡ true
    → kind ≡ at 3 head
    → kind ≡ address_type g
    → r' ≡ address_bytes g
    → r2 ≡ hi ∷ lo ∷ []
    → r ++ (r' ++ (r2 ++ []))
      ≡ 5 ∷ 1 ∷ at 2 head ∷ address_type g ∷ (address_bytes g ++ hi ∷ lo ∷ [])
request_line head r r' r2 kind hi lo g taken four v5 connect kind_at of_kind bytes port =
    let five : at 0 head ≡ 5 = ground arith in
    let one : at 1 head ≡ 1 = ground arith in
    rw (taken, bytes, port, four_bytes head four, five, one, ← kind_at, of_kind) refl

module _ (io : Io) (w : Wire io) (reports : ReportsSuccess io w) where
  read-Takes : (n : ℕ) → Takes io w (read io n) (λ bs r. (r ≡ bs) × (length bs ≡ n))
  read-Takes n = Takes-lift io w Error.io _ _ (reports.read_exact-Takes n)

  greet-Takes : Takes io w (greet io) (λ _ r. IsGreeting r)
  unfolding greet
  greet-Takes = Takes-bind io w (read io 2) _ _ _ (read-Takes 2) λ hello r (taken, two).
      Takes-ensure io w (at 0 hello == 5) _ _ _ λ v5.
        Takes-ensure io w (not (at 1 hello == 0)) _ _ _ λ some_method.
          Takes-bind io w (read io (at 1 hello)) _ _ _ (read-Takes (at 1 hello))
            λ methods r' (taken', count). Takes-ensure io w (contains methods 0) _ _ _ λ no_auth.
              Takes-weaken io w _ (λ _ r2. r2 ≡ []) _
                (λ _ r2 silent.
                  let whole : IsGreeting (r ++ r') =
                    greeting hello r methods r' taken two v5 some_method taken' count no_auth in
                  subst (λ x. IsGreeting (r ++ x)) (sym (ap (λ x. r' ++ x) silent ∙ append-nil r'))
                    whole)
                (Takes-lift io w Error.io _ _ (reports.write_all-Takes (5 ∷ 0 ∷ [])))

  read_ip4-Takes : Takes io w (read_ip4 io) (IsAddress 1)
  unfolding read_ip4
  read_ip4-Takes = Takes-bind io w (read io 4) _ _ _ (read-Takes 4) λ octets r (taken, four).
      Takes-pure io w (ip (v4 octets)) _ (record {
        target = ip4 octets;
        is_target = four;
        of_kind = refl;
        bytes = append-nil r ∙ taken;
        names = refl;
      })

  read_ip6-Takes : Takes io w (read_ip6 io) (IsAddress 4)
  unfolding read_ip6
  read_ip6-Takes = Takes-bind io w (read io 16) _ _ _ (read-Takes 16) λ octets r (taken, sixteen).
      Takes-pure io w (ip (v6 octets)) _ (record {
        target = ip6 octets;
        is_target = sixteen;
        of_kind = refl;
        bytes = append-nil r ∙ taken;
        names = refl;
      })

  read_name-Takes : Takes io w (read_name io) (IsAddress 3)
  unfolding read_name
  read_name-Takes =
      Takes-bind io w (lift Error.io io.read_u8) _ _ _
        (Takes-lift io w Error.io _ _ reports.read_u8-Takes)
        λ len r (taken, byte).
          Takes-bind io w (read io len) _ _ _ (read-Takes len) λ d r' (taken', count).
            Takes-ensure io w (is_utf8 d) _ _ _ λ text. Takes-pure io w (name d) _ (record {
              target = host d;
              is_target = (omega arith, text);
              of_kind = refl;
              bytes = rw (taken, taken', append-nil, count) refl;
              names = refl;
            })

  read_address-Takes : (kind : ℕ) → Takes io w (read_address io kind) (IsAddress kind)
  unfolding read_address
  read_address-Takes kind =
      Takes-if io w (kind == 1) _ _ _
        (λ one. subst (λ k. Takes io w (read_ip4 io) (IsAddress k)) (ground arith) read_ip4-Takes)
        λ _.
          Takes-if io w (kind == 3) _ _ _
            (λ three.
              subst (λ k. Takes io w (read_name io) (IsAddress k)) (ground arith) read_name-Takes)
            λ _.
              Takes-if io w (kind == 4) _ _ _
                (λ four.
                  subst (λ k. Takes io w (read_ip6 io) (IsAddress k)) (ground arith) read_ip6-Takes)
                λ _. Takes-bail io w _ _

  take_request-Takes : Takes io w (take_request io) (λ x r. IsRequest x.0 r)
  unfolding take_request
  take_request-Takes = Takes-bind io w (read io 4) _ _ _ (read-Takes 4) λ head r (taken, four).
      Takes-ensure io w (at 0 head == 5) _ _ _ λ v5.
        Takes-ensure io w (at 1 head == 1) _ _ _ λ connect.
          Takes-bind io w (read_address io (at 3 head)) _ _ _ (read_address-Takes (at 3 head))
            λ a r' address.
              Takes-bind io w (lift Error.io io.read_u16) _ _ _
                (Takes-lift io w Error.io _ _ reports.read_u16-Takes)
                λ port r2 (hi, lo, taken2, hi_byte, lo_byte, value).
                  Takes-ok_or io w (response_to (at 3 head)) panicked _ _ λ response known.
                    Takes-pure io w _ _ (record {
                      reserved = at 2 head;
                      target = address.target;
                      hi = hi;
                      lo = lo;
                      is_target = address.is_target;
                      hi_byte = hi_byte;
                      lo_byte = lo_byte;
                      bytes =
                          request_line head r r' r2 (at 3 head) hi lo address.target taken four v5
                            connect refl address.of_kind address.bytes taken2;
                      names =
                          rw (address.names, value)
                            (endpoint_of-named address.target (hi * 256 + lo));
                    })

  -- Where the operations report success only as tokio documents: whenever the handshake succeeds,
  -- what it took from the connection is a greeting that offers "no authentication", followed by a
  -- well-formed CONNECT request for exactly the endpoint that it returns, and nothing more.
  pub handshake-only :
      (s s' : io.State) (e : Endpoint) (finish : Exec Error io.State (Unit {0}))
      → handshake io s ≡ (ok (e, finish), s')
      → (r1 : Text) × (r2 : Text) × IsGreeting r1
        × IsRequest e r2
        × (w.incoming s ≡ (r1 ++ r2) ++ w.incoming s')
  unfolding handshake
  handshake-only s s' e finish ran =
      let both : Takes io w (handshake io)
          (λ x r. (r1 : Text) × (r2 : Text) × IsGreeting r1 × IsRequest x.0 r2 × (r ≡ r1 ++ r2)) =
        Takes-bind io w (greet io) _ _ _ greet-Takes λ _ r1 greeted.
          Takes-weaken io w (take_request io) _ _ (λ x r2 asked. (r1, r2, greeted, asked, refl))
            take_request-Takes in
      let (r, whole, found) = both.at s s' (e, finish) ran in
      let (r1, r2, greeted, asked, split) = found in (r1, r2, greeted, asked, rw (← split) whole)
