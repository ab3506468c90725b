-- ===== src/Http/Request.antt =====
-- core/src/core/acceptor/http.rs, `transform_proxy_request`: a request to a proxy becomes one to the
-- server. URIs and header maps are those of the crate http, a parameter.
pub mod Headers
use dandelion.Prelude.{List, [], ◌∷◌, Option, none, some, Bool, true, false}
use dandelion.Prelude.Partial.{◌>>=◌}
use dandelion.Net.{Text}

-- The names of headers that the acceptor handles, and any other name.
pub data Name : Type 0 where
  host connection proxy_connection proxy_authenticate proxy_authorization : Name
  other : Text → Name

-- The operations of the crate http; `get` and `remove` are on the first value of a name.
pub record HttpTypes : Type 1 where
  pub Uri : Type 0
  pub Value : Type 0
  pub HeaderMap : Type 0
  pub parse_uri : Text → Option Uri
  pub uri_to_string : Uri → Text
  -- `uri.host()`, which is also `uri.authority()?.host()`
  pub host_of : Uri → Option Text
  pub path_and_query : Uri → Option Text
  pub parse_value : Text → Option Value
  pub get : Name → HeaderMap → Option Value
  pub insert : Name → Value → HeaderMap → HeaderMap
  pub remove : Name → HeaderMap → HeaderMap

module _ (h : HttpTypes) where
  pub record Request : Type 0 where
    pub is_connect : Bool
    pub uri : h.Uri
    pub headers : h.HeaderMap

  abbrev pub with_host_value : h.HeaderMap → Option h.Value → Option h.HeaderMap
  with_host_value m (some v) = some (h.insert host v m)
  with_host_value m none = none

  abbrev pub parse_host : Option Text → Option h.Value
  parse_host (some t) = h.parse_value t
  parse_host none = none

  -- the host header, from the URI if there is none
  unfoldable pub with_host : Option h.Value → Request → Option h.HeaderMap
  with_host (some _) r = some r.headers
  with_host none r = with_host_value r.headers (parse_host (h.host_of r.uri))

  abbrev pub parse_path : Option Text → Option h.Uri
  parse_path (some t) = h.parse_uri t
  parse_path none = none

  abbrev pub or_insert : Name → h.Value → Option h.Value → h.HeaderMap → h.HeaderMap
  or_insert n v (some _) m = m
  or_insert n v none m = h.insert n v m

  abbrev pub map_connection : Option h.Value → h.HeaderMap → h.HeaderMap
  map_connection (some c) m = or_insert connection c (h.get connection m) m
  map_connection none m = m

  -- the headers that are for the proxy alone
  unfoldable pub strip : h.HeaderMap → h.HeaderMap
  strip m =
      let m' = h.remove proxy_authorization (h.remove proxy_authenticate m) in
      map_connection (h.get proxy_connection m') (h.remove proxy_connection m')

  unfoldable pub transform_proxy_request : Request → Option Request
  unfolding with_host strip
  transform_proxy_request r = do
    m ← with_host (h.get host r.headers) r
    u ← parse_path (h.path_and_query r.uri)
    some (record r { uri = u; headers = strip m })
