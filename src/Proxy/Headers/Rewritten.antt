-- ===== src/Proxy/Headers/Rewritten.antt =====
-- internal/proxy/proxy.go: what the backend gets of the headers.
use Prim.Native.String.{[], ◌∷◌}
use homelab_homepage.Prelude.{
  String, false, ◌&&◌, Option, none, some, ◌≡◌, ◌≢◌, refl, arith, ◌==◌, ◌!=◌, string_eq, nat_eq,
  string_dec, if◌then◌else◌, differ,
}
use homelab_homepage.Go.Map.{Map, lookup, insert, erase, lookup-insert, lookup-erase}
use homelab_homepage.Go.Text.{cut, has_byte, strip_prefix}
use homelab_homepage.Proxy.{Url}
use homelab_homepage.Proxy.Headers.{
  get, Incoming, forwarded_for, forwarded_host, forwarded_proto, x_real_ip, real_ip, unforwarded,
  set_client, set_x_forwarded, rewrite_headers, rewrite,
}

cut-absent : (ip : String) → has_byte b',' ip ≡ false → cut "," ip ≡ none
unfolding cut has_byte strip_prefix
cut-absent [] h = ground arith
cut-absent (c ∷ s) h = ground (arith, cut-absent s)

-- The names of the headers are different.
for-host : forwarded_for ≢ forwarded_host
unfolding string_dec
for-host = differ forwarded_for forwarded_host refl

for-proto : forwarded_for ≢ forwarded_proto
unfolding string_dec
for-proto = differ forwarded_for forwarded_proto refl

for-real : forwarded_for ≢ x_real_ip
unfolding string_dec
for-real = differ forwarded_for x_real_ip refl

host-proto : forwarded_host ≢ forwarded_proto
unfolding string_dec
host-proto = differ forwarded_host forwarded_proto refl

host-real : forwarded_host ≢ x_real_ip
unfolding string_dec
host-real = differ forwarded_host x_real_ip refl

proto-real : forwarded_proto ≢ x_real_ip
unfolding string_dec
proto-real = differ forwarded_proto x_real_ip refl

plain-real : "Forwarded" ≢ x_real_ip
unfolding string_dec
plain-real = differ "Forwarded" x_real_ip refl

lookup-set_client :
    (k : String) (c : Option String) (h : Map String)
    → lookup k (set_client c h) ≡ (if forwarded_for == k then c else lookup k h)
lookup-set_client k none h = lookup-erase k forwarded_for h
lookup-set_client k (some ip) h = lookup-insert k forwarded_for ip h

lookup-unforwarded :
    (k : String) (h : Map String)
    → lookup k (unforwarded h) ≡ (
        if "Forwarded" == k
        then none
        else if forwarded_for == k
        then none
        else if forwarded_host == k
        then none
        else if forwarded_proto == k
        then none
        else lookup k h)
unfolding unforwarded
lookup-unforwarded k h =
    rw
      (
        lookup-erase k "Forwarded"
            (erase forwarded_for (erase forwarded_host (erase forwarded_proto h))),
        lookup-erase k forwarded_for (erase forwarded_host (erase forwarded_proto h)),
        lookup-erase k forwarded_host (erase forwarded_proto h),
        lookup-erase k forwarded_proto h,
      )
      refl

lookup-set_x_forwarded :
    (k : String) (r : Incoming) (h : Map String)
    → lookup k (set_x_forwarded r h) ≡ (
        if forwarded_proto == k
        then some (if r.is_tls then "https" else "http")
        else if forwarded_host == k
        then some r.host
        else if forwarded_for == k
        then r.client_ip
        else lookup k h)
unfolding set_x_forwarded
lookup-set_x_forwarded k r h =
    rw
      (
        lookup-insert k forwarded_proto (if r.is_tls then "https" else "http")
            (insert forwarded_host r.host (set_client r.client_ip h)),
        lookup-insert k forwarded_host r.host (set_client r.client_ip h),
        lookup-set_client k r.client_ip h,
      )
      refl

ruleset names = (for-host, for-proto, for-real, host-proto, host-real, proto-real, plain-real)

-- Before the header X-Real-IP is set.
module _ (r : Incoming) where
  abbrev out : Map String
  out = set_x_forwarded r (unforwarded r.headers)

  out-host : lookup forwarded_host out ≡ some r.host
  out-host = ground (arith, names, lookup-set_x_forwarded forwarded_host r (unforwarded r.headers))

  out-proto : lookup forwarded_proto out ≡ some (if r.is_tls then "https" else "http")
  out-proto =
      ground (arith, names, lookup-set_x_forwarded forwarded_proto r (unforwarded r.headers))

  out-for : lookup forwarded_for out ≡ r.client_ip
  out-for = ground (arith, names, lookup-set_x_forwarded forwarded_for r (unforwarded r.headers))

  out-real : lookup x_real_ip out ≡ lookup x_real_ip r.headers
  out-real = ground (
    arith,
    names,
    lookup-set_x_forwarded x_real_ip r (unforwarded r.headers),
    lookup-unforwarded x_real_ip r.headers,
  )

  rewrite_at :
      (k : String)
      → lookup k (rewrite_headers r) ≡ (
          if (get forwarded_proto r.headers != "") && forwarded_proto == k
          then some (get forwarded_proto r.headers)
          else if x_real_ip == k
          then some (real_ip out r.remote_addr)
          else lookup k out)
  unfolding rewrite_headers
  rewrite_at k = ground (
    arith,
    lookup-insert k forwarded_proto (get forwarded_proto r.headers)
        (insert x_real_ip (real_ip out r.remote_addr) out),
    lookup-insert k x_real_ip (real_ip out r.remote_addr) out,
  )

  -- The request is sent to the scheme and the host of the target, with that host in the header Host
  -- and the joined path. The backend gets as X-Forwarded-Host the host of the request, as
  -- X-Forwarded-For the address of the client and no other, as X-Forwarded-Proto the scheme that
  -- the request was forwarded with or else its own, and as X-Real-IP what the request had of it, or
  -- else the address of the client, if that is not empty and has no comma, or the remote address if
  -- no address of the client is known.
  pub rewrite_lem :
      (join : String → String → String) (target : Url)
      → let out = rewrite join target r in
        (out.url ≡ record {
          scheme = target.scheme;
          host = target.host;
          rest = join target.rest r.url.rest;
        })
        × (out.host ≡ target.host)
        × (get forwarded_host out.headers ≡ r.host)
        × (lookup forwarded_for out.headers ≡ r.client_ip)
        × (get forwarded_proto out.headers ≡ (
            if get forwarded_proto r.headers != ""
            then get forwarded_proto r.headers
            else if r.is_tls
            then "https"
            else "http"))
        × (get x_real_ip r.headers ≢ "" → get x_real_ip out.headers ≡ get x_real_ip r.headers)
        × (get x_real_ip r.headers ≡ ""
            → r.client_ip ≡ none
            → get x_real_ip out.headers ≡ r.remote_addr)
        × ((ip : String)
            → get x_real_ip r.headers ≡ ""
            → r.client_ip ≡ some ip
            → ip ≢ ""
            → has_byte b',' ip ≡ false
            → get x_real_ip out.headers ≡ ip)
  unfolding real_ip rewrite
  rewrite_lem join target = (
    refl,
    refl,
    ground (arith, names, rewrite_at forwarded_host, out-host),
    ground (arith, names, rewrite_at forwarded_for, out-for),
    ground (arith, names, rewrite_at forwarded_proto, out-proto),
    λ given. ground (arith, names, rewrite_at x_real_ip, out-real),
    λ absent unknown. ground (arith, names, rewrite_at x_real_ip, out-real, out-for),
    λ ip absent known named plain.
        ground (arith, names, rewrite_at x_real_ip, out-real, out-for, cut-absent ip plain),
  )
