-- ===== src/Engine/GeoIp/Tests.antt =====
-- Databases over a disk where a database is any text, and a server that answers with the host.
use dandelion.Prelude.{ℕ, [], ◌∷◌, Option, none, some, true, eq_text, if◌then◌else◌, ◌≡◌, refl}
use dandelion.Prelude.Exec.{ok, err, Exec}
use dandelion.Net.{Text}
use dandelion.Net.Coded.{coded}
use dandelion.Endpoint.{Endpoint, domain}
use dandelion.Engine.Connect.{ConnectRequest}
use dandelion.Engine.GeoIp.{
  Disk, Services, https, db_path, create_geoip_from_url, create_geoip_from_absolute_path,
  no_database, lookup,
}

abbrev services : Services
services = record {
  World = Option Endpoint;
  Error = Unit {0};
  Io = ℕ;
  Response = Text;
  Reader = Text;
  Found = Text;
  temp_dir = b't' ∷ [];
  sha256 = λ s. s;
  can_create_dir = true;
  write = λ path body disk. (
    ok tt,
    λ p. if eq_text p path then some (record { contents = body; elapsed = some 0 }) else disk p,
  );
  read_mmdb = λ contents. some contents;
  parse_url = λ u. some (record { text = b'/' ∷ u; scheme = https; domain = some u; port = none });
  send_request = λ io r w. (ok r.host, w);
  status = λ r. 200;
  collect = λ r w. (ok r, w);
  find = λ r a. some r;
  decode = λ r. some (some (some r));
}

abbrev connect_noted : ConnectRequest → Exec (Unit {0}) (Option Endpoint) ℕ
connect_noted r w = (ok 1, some r.endpoint)

abbrev no_files : Disk
no_files path = none

-- the URL's own file, of the given age
abbrev aged : ℕ → Disk
unfolding db_path
aged age path =
    if eq_text path (db_path services (b'u' ∷ []))
    then some (record { contents = b'o' ∷ []; elapsed = some age })
    else none

-- Without a file, the database is downloaded from port 443.
download_test :
    ((create_geoip_from_url services (b'u' ∷ []) connect_noted 60 (no_files, none)).0
      ≡ ok (b'u' ∷ []))
    × ((create_geoip_from_url services (b'u' ∷ []) connect_noted 60 (no_files, none)).1.1
        ≡ some (domain (b'u' ∷ []) 443))
unfolding create_geoip_from_url
download_test = (refl, refl)

young_test :
    create_geoip_from_url services (b'u' ∷ []) connect_noted 60 (aged 59, none)
    ≡ (ok (b'o' ∷ []), (aged 59, none))
unfolding create_geoip_from_url aged
young_test = refl

old_test :
    (create_geoip_from_url services (b'u' ∷ []) connect_noted 60 (aged 60, none)).0 ≡ ok (b'u' ∷ [])
unfolding create_geoip_from_url aged
old_test = refl

missing_test :
    create_geoip_from_absolute_path services (b'x' ∷ []) (no_files, none)
    ≡ (err no_database, (no_files, none))
unfolding create_geoip_from_absolute_path
missing_test = refl

no_address_test : lookup services coded (b'C' ∷ b'H' ∷ []) [] ≡ []
unfolding lookup
no_address_test = refl
