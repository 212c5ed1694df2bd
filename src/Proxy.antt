-- ===== src/Proxy.antt =====
-- internal/proxy/proxy.go: the choice of what serves a request, by its host, and the cache of the
-- proxies. net/url and the forwarding itself are parameters.
pub mod Host
pub mod Cached
pub mod Headers
mod Tests
use homelab_homepage.Prelude.{
  String, ◌<>◌, Bool, true, false, ◌||◌, Option, none, some, ◌==◌, string_eq, if◌then◌else◌,
}
use homelab_homepage.Go.Map.{Map, lookup, insert, erase}
use homelab_homepage.Go.Heap.{Ref}
use homelab_homepage.Go.Text.{cut_last, has_suffix, trim_suffix}
use homelab_homepage.Store.Services
use homelab_homepage.Store.Services.{Services, get_service_by_subdomain}

-- url.URL, by the parts that the code reads or sets, and the rest.
pub record Url : Type 0 where
  pub scheme : String
  pub host : String
  pub rest : String

-- `url.Parse` and `String` of package net/url.
pub record Urls : Type 0 where
  pub parse : String → Option Url
  pub print : Url → String

-- httputil.ReverseProxy, by what `buildProxy` makes it of.
pub record ReverseProxy : Type 0 where
  pub sub : String
  pub target : Url

pub record ProxyEntry : Type 0 where
  pub rp : ReverseProxy
  pub target : String

-- What serves a request: the web pages, the proxy for a subdomain, or no one.
pub data Route : Type 0 where
  web_handler : Route
  subdomain : String → Route
  not_found : Route

unfoldable pub strip_port : String → String
strip_port host = elim (cut_last b':' host) [ some (name, port) ↦ name | none ↦ host ]

unfoldable pub route_host : String → String → Route
route_host domain host =
    let suffix = "." <> domain in
    if host == "lantern" <> suffix || (host == domain || host == "")
    then web_handler
    else if has_suffix host suffix
    then subdomain (trim_suffix host suffix)
    else not_found

-- The switch of `ServeHTTP`, for the host of the request.
unfoldable pub serve_http : String → String → Route
serve_http domain host = route_host domain (strip_port host)

-- The answer to a request for a subdomain: the page 404 for no service, the page 502 for a target that
-- cannot be parsed, or the request is passed to a proxy.
pub data Served : Type 0 where
  no_service : Served
  invalid_target : Served
  forwarded : ReverseProxy → Served

unfoldable pub build_proxy : String → Url → ReverseProxy
build_proxy sub target = record { sub = sub; target = target }

abbrev pub Proxies : Type 0
Proxies = Map ProxyEntry

abbrev pub with_entry : String → String → Url → Option ProxyEntry → Proxies → Served × Proxies
with_entry sub text target none proxies =
    let rp = build_proxy sub target in
    (forwarded rp, insert sub (record { rp = rp; target = text }) proxies)
with_entry sub text target (some e) proxies =
    let rp = build_proxy sub target in
    if e.target == text
    then (forwarded e.rp, proxies)
    else (forwarded rp, insert sub (record { rp = rp; target = text }) proxies)

abbrev pub with_target : String → String → Option Url → Proxies → Served × Proxies
with_target sub text none proxies = (invalid_target, proxies)
with_target sub text (some target) proxies = with_entry sub text target (lookup sub proxies) proxies

module _ (urls : Urls) where
  abbrev pub with_service : String → Services → Option Ref → Proxies → Served × Proxies
  with_service sub services none proxies = (no_service, erase sub proxies)
  with_service sub services (some p) proxies =
      let text = (Services.deref services p).target in
      with_target sub text (urls.parse text) proxies

  unfoldable pub proxy_subdomain : Services → String → Proxies → Served × Proxies
  proxy_subdomain services sub proxies =
      with_service sub services (get_service_by_subdomain sub services) proxies

  -- `ModifyResponse`, on the header Location: `forwarded_host` is the header X-Forwarded-Host of the
  -- request that was sent.
  abbrev pub public_location : Url → String → String → Option Url → String
  public_location target forwarded_host loc none = loc
  public_location target forwarded_host loc (some u) =
      if u.host == target.host
      then urls.print (record u { scheme = "https"; host = forwarded_host })
      else loc

  unfoldable pub modify_response : Url → String → String → String
  modify_response target forwarded_host loc =
      if loc == "" then loc else public_location target forwarded_host loc (urls.parse loc)
