-- ===== src/Proxy/Headers.antt =====
-- internal/proxy/proxy.go: the request that goes to the backend, the `Rewrite` of `buildProxy`. A
-- header has one value here.
pub mod Rewritten
use Prim.Native.String.{[], ◌∷◌}
use homelab_homepage.Prelude.{
  String, Bool, false, ◌&&◌, Option, none, some, ◌≡◌, ◌≢◌, refl, arith, ◌==◌, ◌!=◌, string_eq,
  nat_eq, string_dec, if◌then◌else◌, differ,
}
use homelab_homepage.Go.Map.{Map, lookup, insert, erase, lookup-insert, lookup-erase}
use homelab_homepage.Proxy.{Url}
use homelab_homepage.Go.Text.{before_sep, or_else, has_byte, strip_prefix}

-- Header.Get
abbrev pub get : String → Map String → String
get key headers = or_else (lookup key headers) ""

-- What the code reads of the request that came in, with its headers but the hop-by-hop ones;
-- `client_ip` is what net.SplitHostPort makes of `remote_addr`, and `is_tls` is `TLS != nil`.
pub record Incoming : Type 0 where
  pub url : Url
  pub headers : Map String
  pub host : String
  pub remote_addr : String
  pub client_ip : Option String
  pub is_tls : Bool

abbrev pub forwarded_for : String
forwarded_for = "X-Forwarded-For"

abbrev pub forwarded_host : String
forwarded_host = "X-Forwarded-Host"

abbrev pub forwarded_proto : String
forwarded_proto = "X-Forwarded-Proto"

abbrev pub x_real_ip : String
x_real_ip = "X-Real-IP"

unfoldable pub real_ip : Map String → String → String
real_ip headers remote_addr =
    if get x_real_ip headers != ""
    then get x_real_ip headers
    else if get forwarded_for headers != ""
    then before_sep "," (get forwarded_for headers)
    else remote_addr

-- What httputil.ReverseProxy takes away before it calls `Rewrite`.
unfoldable pub unforwarded : Map String → Map String
unforwarded headers =
    erase "Forwarded" (erase forwarded_for (erase forwarded_host (erase forwarded_proto headers)))

abbrev pub set_client : Option String → Map String → Map String
set_client none headers = erase forwarded_for headers
set_client (some ip) headers = insert forwarded_for ip headers

-- pr.SetXForwarded()
unfoldable pub set_x_forwarded : Incoming → Map String → Map String
set_x_forwarded r headers =
    insert forwarded_proto (if r.is_tls then "https" else "http")
      (insert forwarded_host r.host (set_client r.client_ip headers))

abbrev pub keep_proto : String → Map String → Map String
keep_proto proto headers = if proto != "" then insert forwarded_proto proto headers else headers

unfoldable pub rewrite_headers : Incoming → Map String
unfolding unforwarded set_x_forwarded
rewrite_headers r =
    let out = set_x_forwarded r (unforwarded r.headers) in
    keep_proto (get forwarded_proto r.headers) (insert x_real_ip (real_ip out r.remote_addr) out)

-- What the request is sent with: its URL, its header Host, and its other headers.
pub record Outgoing : Type 0 where
  pub url : Url
  pub host : String
  pub headers : Map String

-- `join` is how pr.SetURL makes one path and query of those of the target and of the request; as
-- documented it takes the scheme and the host of the target.
abbrev pub set_url : (String → String → String) → Url → Url → Url
set_url join target url = record {
  scheme = target.scheme;
  host = target.host;
  rest = join target.rest url.rest;
}

unfoldable pub rewrite : (String → String → String) → Url → Incoming → Outgoing
unfolding rewrite_headers
rewrite join target r = record {
  url = set_url join target r.url;
  host = target.host;
  headers = rewrite_headers r;
}
