-- ===== src/Engine/GeoIp.antt =====
-- core/src/config/engine/geoip.rs: the databases of countries, and where they come from. The file
-- system, hyper's client and the crates maxminddb, url and sha2 are parameters.
pub mod Downloads
mod Tests
use dandelion.Prelude.{
  ℕ, List, [], ◌∷◌, ◌++◌, Option, none, some, Bool, true, false, not, ◌&&◌, ◌||◌, ◌==◌, ltb,
  eq_text, if◌then◌else◌,
}
use dandelion.Prelude.Exec.{Result, ok, err, Exec, ◌>>=◌, ◌>>◌, bail, ensure, ok_or}
use dandelion.Net.{Text, IpAddr, AddrText}
use dandelion.Endpoint.{Endpoint, new_from_domain}
use dandelion.Engine.Connect.{ConnectRequest}

-- A file: what it holds, and the seconds since it was modified, if they can be told.
pub record File : Type 0 where
  pub contents : Text
  pub elapsed : Option ℕ

abbrev pub Disk : Type 0
Disk = Text → Option File

-- `text` is `as_ref`, the serialisation of what was parsed.
pub record Url : Type 0 where
  pub text : Text
  pub scheme : Text
  pub domain : Option Text
  pub port : Option ℕ

-- the GET request of a URI, which asks to close the connection
pub record Request : Type 0 where
  pub uri : Text
  pub host : Text

-- `World` is what scripts and connections change. `handler` is the script's function, `send_request`
-- a request, which it builds, on a new client of hyper's over the connection, and `collect` reads the body.
pub record Services : Type 1 where
  pub World : Type 0
  pub Error : Type 0
  pub Io : Type 0
  pub Response : Type 0
  pub Reader : Type 0
  pub Found : Type 0
  pub temp_dir : Text
  pub sha256 : Text → Text
  pub can_create_dir : Bool
  pub write : Text → Text → Exec Error Disk (Unit {0})
  pub read_mmdb : Text → Option Reader
  pub parse_url : Text → Option Url
  pub send_request : Io → Request → Exec Error World Response
  pub status : Response → ℕ
  pub collect : Response → Exec Error World Text
  pub find : Reader → IpAddr → Option Found
  pub decode : Found → Option (Option (Option Text))

pub data Error (E : Type 0) : Type 0 where
  no_database no_temp_dir no_elapsed bad_url unsupported_scheme no_domain http_status : Error E
  other : E → Error E

module _ {E : Type 0} where
  abbrev pub other_err : {A : Type 0} → Result E A → Result (Error E) A
  other_err (ok a) = ok a
  other_err (err e) = err (other e)

  abbrev pub on_disk : {W A : Type 0} → Exec E Disk A → Exec (Error E) (Disk × W) A
  on_disk m (disk, w) = (other_err (m disk).0, ((m disk).1, w))

  abbrev pub on_world : {W A : Type 0} → Exec E W A → Exec (Error E) (Disk × W) A
  on_world m (disk, w) = (other_err (m w).0, (disk, (m w).1))

abbrev pub https : Text
https = b'h' ∷ b't' ∷ b't' ∷ b'p' ∷ b's' ∷ []

abbrev pub http : Text
http = b'h' ∷ b't' ∷ b't' ∷ b'p' ∷ []

abbrev pub unwrap_or : {A : Type 0} → Option A → A → A
unwrap_or (some a) b = a
unwrap_or none b = b

-- the port to connect to
unfoldable pub port_of : Url → ℕ
port_of url = unwrap_or url.port (if eq_text url.scheme https then 443 else 80)

module _ (v : Services) where
  open v use {World, Io, Reader}

  abbrev pub Run : Type 0 → Type 0
  Run A = Exec (Error v.Error) (Disk × World) A

  -- `Reader::open_mmap`, of a file and of a path
  abbrev pub opened : Option File → Option Reader
  opened none = none
  opened (some f) = v.read_mmdb f.contents

  abbrev pub open_mmap : Text → Run Reader
  open_mmap path (disk, w) = ok_or (opened (disk path)) no_database (disk, w)

  unfoldable pub create_geoip_from_absolute_path : Text → Run Reader
  create_geoip_from_absolute_path path = open_mmap path

  unfoldable pub db_path : Text → Text
  db_path url =
      v.temp_dir
      ++ b'/'
        ∷ b'd'
        ∷ b'a'
        ∷ b'n'
        ∷ b'd'
        ∷ b'e'
        ∷ b'l'
        ∷ b'i'
        ∷ b'o'
        ∷ b'n'
        ∷ b'/'
        ∷ b'g'
        ∷ b'e'
        ∷ b'o'
        ∷ b'i'
        ∷ b'p'
        ∷ b'/'
        ∷ (v.sha256 url ++ b'.' ∷ b'm' ∷ b'm' ∷ b'd' ∷ b'b' ∷ [])

  -- a status other than 200 is an error, which shows the body
  abbrev pub body_of : v.Response → Run Text
  body_of response =
      if v.status response == 200
      then on_world (v.collect response)
      else on_world (v.collect response) >>= λ _. bail http_status

  -- the client, from the connection to the body of the response
  unfoldable pub fetch : Text → Text → Io → Run Text
  fetch url domain io = do
    response ← on_world (v.send_request io (record { uri = url; host = domain }))
    body_of response

  -- everything from `Url::parse` on
  unfoldable pub download : (ConnectRequest → Exec v.Error World Io) → Text → Text → Run Reader
  unfolding port_of new_from_domain fetch
  download handler path url_text = do
    url ← ok_or (v.parse_url url_text) bad_url
    ensure (eq_text url.scheme https || eq_text url.scheme http) unsupported_scheme
    domain ← ok_or url.domain no_domain
    io ← on_world (handler (record { endpoint = new_from_domain domain (port_of url) }))
    body ← fetch url.text domain io
    on_disk (v.write path body)
    open_mmap path

  -- the file, where it is younger than the interval
  abbrev pub young_or : Run Reader → Text → ℕ → Option ℕ → Run Reader
  young_or anew path update_interval none = bail no_elapsed
  young_or anew path update_interval (some age) =
      if ltb age update_interval then open_mmap path else anew

  abbrev pub cached_or : Run Reader → Text → ℕ → Option File → Run Reader
  cached_or anew path update_interval none = anew
  cached_or anew path update_interval (some f) = young_or anew path update_interval f.elapsed

  unfoldable pub create_geoip_from_url :
      Text → (ConnectRequest → Exec v.Error World Io) → ℕ → Run Reader
  unfolding db_path download
  create_geoip_from_url url handler update_interval = do
    ensure v.can_create_dir no_temp_dir
    λ s.
        cached_or (download handler (db_path url) url) (db_path url) update_interval
          (s.0 (db_path url)) s

  abbrev pub iso_code : Option (Option (Option Text)) → Text
  iso_code (some (some (some code))) = code
  iso_code _ = []

  abbrev pub found_code : Option v.Found → Text
  found_code none = []
  found_code (some r) = iso_code (v.decode r)

  unfoldable pub lookup : AddrText → Reader → Text → Text
  lookup t reader ip = elim (t.parse_ip ip) [ none ↦ [] | some a ↦ found_code (v.find reader a) ]
