-- ===== src/Simplex/Tunnel/Tests.antt =====
-- The tunnel over requests that are a path and a function from the names of headers.
use dandelion.Prelude.{
  [], ◌∷◌, Option, none, some, true, ◌≡◌, ◌≢◌, refl, ap, sym, ◌∙◌, arith, Bool-cases, inl, inr,
  eq_text, eq_text_refl, eq_text_sound, if◌then◌else◌,
}
use dandelion.Prelude.Exec.{ok}
use dandelion.Net.{Text}
use dandelion.Net.Coded.{coded, coded-ReadsBack}
use dandelion.Net.Decimal.{u16_to_string}
use dandelion.Endpoint.{Endpoint, domain, port, to_string}
use dandelion.Endpoint.RoundTrip.{canonical}
use dandelion.Simplex.Server.{Config, Requests, fresh}
use dandelion.Simplex.Server.Handshake.{handshake, connection, upgraded}
use dandelion.Simplex.Server.Handshake.Steps.{IsRefused}
use dandelion.Simplex.Client.{Builder, client_request}
use dandelion.Simplex.Tunnel.{IsBuilder, Arrives, client_request-upgraded}

abbrev Request : Type 0
Request = Text × (Text → Option Text)

abbrev requests : Requests
requests = record {
  Request = Request;
  path = λ r. r.0;
  header = λ n r. r.1 n;
  to_str = λ v. some v;
  is_upgrade_request = λ r. true;
  key = λ r. some (b'k' ∷ []);
  version = λ r. some (b'1' ∷ b'3' ∷ []);
  derive_accept_key = λ k. k;
}

abbrev builder : Builder requests
builder = record {
  request_for = λ host path. some (path, λ _. none);
  parse_name = λ n. some n;
  parse_value = λ v. some v;
  insert = λ n v r. (r.0, λ m. if eq_text n m then some v else r.1 m);
}

insert_other : (n m v : Text) (r : Request) → m ≢ n → (builder.insert n v r).1 m ≡ r.1 m
insert_other n m v r ne = elim (Bool-cases (eq_text n m)) [
  | inl same ↦ absurd (ne (sym (eq_text_sound n m same)))
  | inr apart ↦ rw apart refl
]

some_inj : (a b : Text) → some a ≡ some b → a ≡ b
some_inj a b e = cc

builder-IsBuilder : IsBuilder requests builder
builder-IsBuilder = record {
  request_for_lem = λ host p r made plain. (
    b'k' ∷ [],
    (refl, refl),
    ap (λ (o : Option Request). elim o [ some x ↦ x.0 | none ↦ p ]) (sym made),
    refl,
    refl,
    refl,
  );
  path-insert = λ n v r. refl;
  header-insert = λ m n v r name. rw (some_inj m n name, eq_text_refl n) refl;
  header-insert_other =
      λ m k n v r name ne. insert_other n m v r (λ e. ne (sym (some_inj m k name) ∙ e));
  to_str-parse_value = λ s v read ascii. sym read;
}

-- values without blanks at their ends, as they were
abbrev carried : Request → Request
carried r = r

carried-Arrives : Arrives requests carried
carried-Arrives = record {
  path-arrived = λ r. refl;
  header-arrived = λ m v s r there text trim. (v, there, text);
  is_upgrade_request-arrived = λ r up. up;
  key-arrived = λ k r there trim. there;
  version-arrived = λ v r there trim. there;
}

abbrev config : Config
config = record {
  host = b'h' ∷ [];
  path = b'/' ∷ b'p' ∷ [];
  secret_header = (b'n' ∷ [], b's' ∷ []);
}

abbrev site : Endpoint
site = domain (b'a' ∷ []) 80

abbrev built : Request
unfolding client_request
built = elim (client_request coded requests builder site config) [
  | some r ↦ r
  | none ↦ ([], λ _. none)
]

-- A request for another path comes first.
abbrev strange : Request
strange = ([], λ _. none)

strange-IsRefused : IsRefused coded requests config strange
strange-IsRefused e a = absurd (ground (arith, a.of_path))

client_request-upgraded_example :
    (key : Text) × (handshake coded requests config (strange ∷ built ∷ [])
      ≡ ok (canonical coded site, built, fresh, []))
    × (connection coded requests config (built ∷ []) fresh
        ≡ upgraded (requests.derive_accept_key key))
unfolding client_request port to_string u16_to_string
client_request-upgraded_example =
    client_request-upgraded coded requests builder carried builder-IsBuilder carried-Arrives
      coded-ReadsBack site config built (strange ∷ []) [] refl (ground arith)
      (b'p' ∷ [], refl, ground arith) (ground arith) (refl, refl) (ground arith) (refl, refl)
      (λ e. absurd (ground arith)) (λ n v r name. (refl, refl, refl))
      (λ n v r name. (refl, refl, refl)) (strange-IsRefused, tt)
