-- ===== src/Proxy/Tests.antt =====
-- Requests, cached proxies and headers at concrete values.
use homelab_homepage.Prelude.{
  String, ◌<>◌, ◌≡◌, ◌≢◌, refl, false, Option, none, some, List, [], ◌∷◌, map, string_eq,
  ℕ_discrete, if◌then◌else◌, ◌!=◌,
}
use homelab_homepage.Go.Map.{lookup}
use homelab_homepage.Go.Text.{has_byte}
use homelab_homepage.Store.Data.{Service, zero_service}
use homelab_homepage.Store.Services
use homelab_homepage.Store.Services.{Services, add_service}
use homelab_homepage.Proxy.{Url, Urls, web_handler, subdomain, serve_http}
use homelab_homepage.Proxy.Host.{with_port, serve_http-subdomain}
use homelab_homepage.Proxy.Cached.{direct, serve_all, serve_all-direct}
use homelab_homepage.Proxy.Headers.{
  Incoming, get, rewrite, forwarded_for, forwarded_host, forwarded_proto, x_real_ip,
}
use homelab_homepage.Proxy.Headers.Rewritten.{rewrite_lem}

abbrev port : Option String
port = some "8443"

abbrev plex_name : String
plex_name = "plex"

serve_http-subdomain_example :
    (serve_http "example.com" (with_port "example.com" port) ≡ web_handler)
    × (serve_http "example.com" (with_port ("lantern" <> ("." <> "example.com")) port)
        ≡ web_handler)
    × (plex_name ≢ "lantern"
        → serve_http "example.com" (with_port (plex_name <> ("." <> "example.com")) port)
          ≡ subdomain plex_name)
unfolding has_byte ℕ_discrete
serve_http-subdomain_example = serve_http-subdomain "example.com" plex_name port refl refl refl

-- Every text is a URL with itself as its host.
abbrev urls : Urls
urls = record {
  parse = λ text. some (record { scheme = "http"; host = text; rest = "" });
  print = λ u. u.scheme <> ("://" <> (u.host <> u.rest));
}

abbrev plex : Service
plex = record zero_service { id = "s1"; subdomain = "plex"; target = "10.0.0.2:32400" }

abbrev before : Services
before = add_service plex Services.empty

-- The target changes between two requests, and then the service is deleted.
abbrev after : Services
after = add_service (record plex { target = "10.0.0.3:32400" }) Services.empty

abbrev requests : List (Services × String)
requests = (before, "plex") ∷ (after, "plex") ∷ (Services.empty, "plex") ∷ []

serve_all-direct_example :
    (serve_all urls requests []).0 ≡ map (λ (services, sub). direct urls services sub) requests
serve_all-direct_example = serve_all-direct urls requests

abbrev incoming : Incoming
incoming = record {
  url = record { scheme = ""; host = ""; rest = "/index.html" };
  headers = ("X-Real-IP", "1.1.1.1") ∷ ("X-Forwarded-Proto", "https") ∷ [];
  host = "plex.example.com";
  remote_addr = "10.0.0.7:50000";
  client_ip = some "10.0.0.7";
  is_tls = false;
}

abbrev backend : Url
backend = record { scheme = "http"; host = "10.0.0.2:32400"; rest = "/web" }

rewrite_lem_example :
    let out = rewrite (λ a b. a <> b) backend incoming in
    (out.url ≡ record {
      scheme = backend.scheme;
      host = backend.host;
      rest = backend.rest <> incoming.url.rest;
    })
    × (out.host ≡ backend.host)
    × (get forwarded_host out.headers ≡ incoming.host)
    × (lookup forwarded_for out.headers ≡ incoming.client_ip)
    × (get forwarded_proto out.headers ≡ (
        if get forwarded_proto incoming.headers != ""
        then get forwarded_proto incoming.headers
        else if incoming.is_tls
        then "https"
        else "http"))
    × (get x_real_ip incoming.headers ≢ ""
        → get x_real_ip out.headers ≡ get x_real_ip incoming.headers)
    × (get x_real_ip incoming.headers ≡ ""
        → incoming.client_ip ≡ none
        → get x_real_ip out.headers ≡ incoming.remote_addr)
    × ((ip : String)
        → get x_real_ip incoming.headers ≡ ""
        → incoming.client_ip ≡ some ip
        → ip ≢ ""
        → has_byte b',' ip ≡ false
        → get x_real_ip out.headers ≡ ip)
rewrite_lem_example = rewrite_lem incoming (λ a b. a <> b) backend
