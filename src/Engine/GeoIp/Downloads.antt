-- ===== src/Engine/GeoIp/Downloads.antt =====
-- What a download may write, and where.
use dandelion.Prelude.{ℕ, ◌≤◌, Option, none, some, ◌≡◌, ◌⊎◌, arith}
use dandelion.Prelude.Exec.{ok, Exec}
use dandelion.Net.{Text}
use dandelion.Endpoint.{domain}
use dandelion.Engine.Connect.{ConnectRequest}
use dandelion.Engine.GeoIp.{
  File, Disk, Url, Request, Services, https, http, port_of, opened, body_of, on_world,
}
use dandelion.Engine.GeoIp

module _ (v : Services) (handler : ConnectRequest → Exec v.Error v.World v.Io) (url : Text) where
  -- The body of a response with the status 200 to a GET request of the text of the parsed URL, over a connection that
  -- the script made to the URL's domain and port, from the world `w`.
  pub record IsDownloaded (w : v.World) (body : Text) : Type 0 where
    pub target : Url
    pub host : Text
    pub io : v.Io
    pub response : v.Response
    pub parsed : v.parse_url url ≡ some target
    pub of_scheme : (target.scheme ≡ https) ⊎ (target.scheme ≡ http)
    pub of_domain : target.domain ≡ some host
    pub connected : (handler (record { endpoint = domain host (port_of target) }) w).0 ≡ ok io
    pub answered :
        (v.send_request io
          (record { uri = target.text; host = host })
          (handler (record { endpoint = domain host (port_of target) }) w).1).0
        ≡ ok response
    pub of_status : v.status response ≡ 200
    pub read :
        (v.collect response
          (v.send_request io
            (record { uri = target.text; host = host })
            (handler (record { endpoint = domain host (port_of target) }) w).1).1).0
        ≡ ok body

  body_of-disk :
      (response : v.Response) (disk : Disk) (w : v.World)
      → (body_of v response (disk, w)).1.0 ≡ disk
  body_of-disk response disk w = ground arith

  -- The file of the cache is not younger than the interval.
  abbrev pub IsStale : ℕ → Option File → Type 0
  IsStale interval none = Unit {0}
  IsStale interval (some f) = (age : ℕ) × (f.elapsed ≡ some age) × (interval ≤ age)

  -- What may have become of the disk: nothing, or a download to the path, which had a reason.
  abbrev pub Writes : Text → Type 0 → Disk → v.World → Disk → Type 0
  Writes path Reason disk w disk' =
      (disk' ≡ disk)
      ⊎ (Reason × ((body : Text) × IsDownloaded w body × (disk' ≡ (v.write path body disk).1)))
