-- ===== src/Http/Request/Headers.antt =====
-- The headers of a transformed request.
use dandelion.Prelude.{
  Option, none, some, ◌≡◌, ◌≢◌, inl, inr, refl, arith, sym, ◌∙◌, ap, Option-cases,
}
use dandelion.Prelude.Partial.{◌>>=◌}
use dandelion.Http.Request.{
  Name, host, connection, proxy_connection, proxy_authenticate, proxy_authorization, other,
  HttpTypes, Request, with_host, with_host_value, parse_host, strip, map_connection, parse_path,
  transform_proxy_request,
}

-- What the crate documents of a header map.
pub record IsHeaderMap (h : HttpTypes) : Type 0 where
  pub get-insert : (n : Name) (v : h.Value) (m : h.HeaderMap) → h.get n (h.insert n v m) ≡ some v
  pub get-insert-ne :
      (n k : Name) (v : h.Value) (m : h.HeaderMap) → n ≢ k → h.get n (h.insert k v m) ≡ h.get n m
  pub get-remove : (n : Name) (m : h.HeaderMap) → h.get n (h.remove n m) ≡ none
  pub get-remove-ne : (n k : Name) (m : h.HeaderMap) → n ≢ k → h.get n (h.remove k m) ≡ h.get n m

abbrev pub or_else {ℓ} : {A : Type ℓ} → Option A → Option A → Option A
or_else (some a) o = some a
or_else none o = o

or_else-none {ℓ} : {A : Type ℓ} (o : Option A) → o ≡ or_else o none
or_else-none (some a) = refl
or_else-none none = refl

or_else-some {ℓ} : {A : Type ℓ} (o p : Option A) (a : A) → o ≡ some a → o ≡ or_else o p
or_else-some o p a e = rw e refl

module _ (h : HttpTypes) (hm : IsHeaderMap h) where
  -- What the header of a name is after the transformation.
  abbrev pub expected : Name → Request h → Option h.Value
  expected host r = or_else (h.get host r.headers) (parse_host h (h.host_of r.uri))
  expected connection r = or_else (h.get connection r.headers) (h.get proxy_connection r.headers)
  expected proxy_connection r = none
  expected proxy_authenticate r = none
  expected proxy_authorization r = none
  expected (other t) r = h.get (other t) r.headers

  map_connection-ne :
      (n : Name) (o : Option h.Value) (m : h.HeaderMap)
      → n ≢ connection
      → h.get n (map_connection h o m) ≡ h.get n m
  map_connection-ne n none m ne = refl
  map_connection-ne n (some c) m ne = elim (Option-cases (h.get connection m)) [
    | inl gone ↦ rw gone (hm.get-insert-ne n connection c m ne)
    | inr (v, kept) ↦ rw kept refl
  ]

  map_connection-get :
      (o : Option h.Value) (m : h.HeaderMap)
      → h.get connection (map_connection h o m) ≡ or_else (h.get connection m) o
  map_connection-get none m = or_else-none (h.get connection m)
  map_connection-get (some c) m = elim (Option-cases (h.get connection m)) [
    | inl gone ↦ rw gone (hm.get-insert connection c m)
    | inr (v, kept) ↦ rw kept kept
  ]

  remove-three :
      (n : Name) (m : h.HeaderMap)
      → n ≢ proxy_connection
      → n ≢ proxy_authorization
      → n ≢ proxy_authenticate
      → h.get n
          (h.remove proxy_connection (h.remove proxy_authorization (h.remove proxy_authenticate m)))
        ≡ h.get n m
  remove-three n m a b c =
      hm.get-remove-ne n proxy_connection _ a
      ∙ hm.get-remove-ne n proxy_authorization _ b
      ∙ hm.get-remove-ne n proxy_authenticate m c

  remove-two :
      (n : Name) (m : h.HeaderMap)
      → n ≢ proxy_authorization
      → n ≢ proxy_authenticate
      → h.get n (h.remove proxy_authorization (h.remove proxy_authenticate m)) ≡ h.get n m
  remove-two n m b c =
      hm.get-remove-ne n proxy_authorization _ b ∙ hm.get-remove-ne n proxy_authenticate m c

  strip-ne :
      (n : Name) (m : h.HeaderMap)
      → n ≢ connection
      → n ≢ proxy_connection
      → n ≢ proxy_authorization
      → n ≢ proxy_authenticate
      → h.get n (strip h m) ≡ h.get n m
  unfolding strip
  strip-ne n m k a b c = map_connection-ne n _ _ k ∙ remove-three n m a b c

  with_host_value_lem :
      (old : h.HeaderMap) (o : Option h.Value) (m : h.HeaderMap)
      → with_host_value h old o ≡ some m
      → (v : h.Value) × (o ≡ some v) × (h.insert host v old ≡ m)
  with_host_value_lem old (some v) m w = (v, refl, ground arith)
  with_host_value_lem old none m w = absurd (ground arith)

  with_host-host :
      (o : Option h.Value) (r : Request h) (m : h.HeaderMap)
      → h.get host r.headers ≡ o
      → with_host h o r ≡ some m
      → h.get host m ≡ expected host r
  unfolding with_host
  with_host-host (some v) r m e w =
      let same : r.headers ≡ m = ground arith in
      ap (h.get host) (sym same) ∙ or_else-some (h.get host r.headers) _ v e
  with_host-host none r m e w =
      let (v, given, put) = with_host_value_lem r.headers (parse_host h (h.host_of r.uri)) m w in
      ap (h.get host) (sym put) ∙ hm.get-insert host v r.headers ∙ rw (e, given) refl

  with_host-ne :
      (n : Name) (o : Option h.Value) (r : Request h) (m : h.HeaderMap)
      → n ≢ host
      → with_host h o r ≡ some m
      → h.get n m ≡ h.get n r.headers
  unfolding with_host
  with_host-ne n (some v) r m ne w =
      let same : r.headers ≡ m = ground arith in ap (h.get n) (sym same)
  with_host-ne n none r m ne w =
      let (v, given, put) = with_host_value_lem r.headers (parse_host h (h.host_of r.uri)) m w in
      ap (h.get n) (sym put) ∙ hm.get-insert-ne n host v r.headers ne

  strip-connection :
      (m : h.HeaderMap)
      → h.get connection (strip h m) ≡ or_else (h.get connection m) (h.get proxy_connection m)
  unfolding strip
  strip-connection m =
      let m' : h.HeaderMap = h.remove proxy_authorization (h.remove proxy_authenticate m) in
      map_connection-get (h.get proxy_connection m') (h.remove proxy_connection m')
      ∙ rw
          (
            remove-three connection m (ground arith) (ground arith) (ground arith),
            remove-two proxy_connection m (ground arith) (ground arith),
          )
          refl

  strip-gone :
      (m : h.HeaderMap)
      → (h.get proxy_connection (strip h m) ≡ none)
        × (h.get proxy_authenticate (strip h m) ≡ none)
        × (h.get proxy_authorization (strip h m) ≡ none)
  unfolding strip
  strip-gone m = (
    map_connection-ne proxy_connection _ _ (ground arith) ∙ hm.get-remove proxy_connection _,
    map_connection-ne proxy_authenticate _ _ (ground arith)
        ∙ hm.get-remove-ne proxy_authenticate proxy_connection _ (ground arith)
        ∙ hm.get-remove-ne proxy_authenticate proxy_authorization _ (ground arith)
        ∙ hm.get-remove proxy_authenticate m,
    map_connection-ne proxy_authorization _ _ (ground arith)
        ∙ hm.get-remove-ne proxy_authorization proxy_connection _ (ground arith)
        ∙ hm.get-remove proxy_authorization _,
  )

  with_host-get :
      (n : Name) (o : Option h.Value) (r : Request h) (m : h.HeaderMap)
      → h.get host r.headers ≡ o
      → with_host h o r ≡ some m
      → h.get n (strip h m) ≡ expected n r
  with_host-get host o r m e w =
      strip-ne host m (ground arith) (ground arith) (ground arith) (ground arith)
      ∙ with_host-host o r m e w
  with_host-get (other t) o r m e w =
      strip-ne (other t) m (ground arith) (ground arith) (ground arith) (ground arith)
      ∙ with_host-ne (other t) o r m (ground arith) w
  with_host-get connection o r m e w =
      strip-connection m
      ∙ rw
          (
            with_host-ne connection o r m (ground arith) w,
            with_host-ne proxy_connection o r m (ground arith) w,
          )
          refl
  with_host-get proxy_connection o r m e w = (strip-gone m).0
  with_host-get proxy_authenticate o r m e w = (strip-gone m).1
  with_host-get proxy_authorization o r m e w = (strip-gone m).2

  and_then-some :
      (o : Option h.HeaderMap) (p : Option h.Uri) (r r' : Request h)
      → (o >>= λ m. p >>= λ u. some (record r { uri = u; headers = strip h m })) ≡ some r'
      → (m : h.HeaderMap) × (o ≡ some m) × (p ≡ some r'.uri) × (strip h m ≡ r'.headers)
  and_then-some (some m) (some u) r r' e = (m, refl, ground arith, ground arith)
  and_then-some (some m) none r r' e = absurd (ground arith)
  and_then-some none p r r' e = absurd (ground arith)

  -- With header maps as the crate documents them: a request that is transformed has the path and
  -- query of its URI for a URI; its host header is the one it had, or else the URI's host; its
  -- connection header is the one it had, or else its proxy-connection; the three headers for the
  -- proxy are gone; and any other header is as it was.
  pub transform_proxy_request-get :
      (r r' : Request h) (n : Name)
      → transform_proxy_request h r ≡ some r'
      → (parse_path h (h.path_and_query r.uri) ≡ some r'.uri) × (h.get n r'.headers ≡ expected n r)
  unfolding transform_proxy_request
  transform_proxy_request-get r r' n e =
      let (m, w, u, same) =
        and_then-some (with_host h (h.get host r.headers) r) (parse_path h (h.path_and_query r.uri))
          r r' e in
      (u, ap (h.get n) (sym same) ∙ with_host-get n (h.get host r.headers) r m refl w)
