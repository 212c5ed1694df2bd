-- ===== src/Cf/Tests.antt =====
-- The tunnel operations at a simulated service, whose world is the list of its entries.
use homelab_homepage.Prelude.{
  String, ◌≡◌, ◌≢◌, refl, some, List, [], ◌∷◌, string_dec, string_eq, ◌==◌, differ, keep, Bool,
  false, map,
}
use homelab_homepage.Go.Text.{or_else}
use homelab_homepage.Cf.Act.{Result, ok, err, request_failed}
use homelab_homepage.Cf.Api.{
  Api, Request, Response, IngressRule, IngressEntry, encoded, record_of, config, other, post_dns,
  get_config, put_config,
}
use homelab_homepage.Cf.Client.{Client, tunnel_enabled}
use homelab_homepage.Cf.Ingress.{
  is_named, rewrite_ingress, with_route, replace_route, route, routed,
}
use homelab_homepage.Cf.Ingress.Routes.{route-replace_route}
use homelab_homepage.Cf.Dns.{find_record, create_cname}
use homelab_homepage.Cf.Tunnel.{add_tunnel_route, modify_ingress, delete_stale}
use homelab_homepage.Cf.Tunnel.Served.{Served}

abbrev answer : Request → List IngressEntry → Result Response × List IngressEntry
answer (get_config a t) w = (ok (config w), w)
answer (put_config a t rs) w = (ok other, map encoded rs)
answer (post_dns z p) w = (ok (record_of "r1"), w)
answer _ w = (err request_failed, w)

-- Looking for a record and deleting one fail.
abbrev pub simulated : Api
simulated = record { World = List IngressEntry; send = answer }

unfoldable pub served : (account tunnel : String) → Served simulated account tunnel
served account tunnel = record {
  entries = λ w. w;
  get_lem = λ w. refl;
  put_lem = λ rs w. (other, map encoded rs, refl, refl);
  post_lem = λ zone p w. ("r1", w, refl, refl);
  find_lem = λ zone name w. refl;
  delete_lem = λ zone id w. refl;
}

abbrev pub client : Client
client = record { zone_id = "z"; account_id = "a"; tunnel_id = "t"; noop = false }

abbrev old_rules : List IngressRule
old_rules =
    record { hostname = "plex.example.com"; service = "http://10.0.0.2:32400" }
    ∷ record { hostname = ""; service = "http_status:503" }
    ∷ []

abbrev wiki : String
wiki = "wiki.example.com"

wiki-named : wiki ≢ ""
unfolding string_dec
wiki-named = differ wiki "" refl

abbrev plex : String
plex = "plex.example.com"

plex-named : plex ≢ ""
unfolding string_dec
plex-named = differ plex "" refl

plex-wiki : plex ≢ wiki
unfolding string_dec
plex-wiki = differ plex wiki refl

abbrev backend : String
backend = "http://10.0.0.3:80"

-- A pattern is a path of its own.
abbrev pub same_path : String → String → Bool
same_path pattern path = pattern == path

-- Plex, for one path only and with settings, and a catch-all.
abbrev entries : List IngressEntry
entries =
    record {
      hostname = plex;
      service = "http://10.0.0.2:32400";
      path = "/web";
      origin_request = "{\"noTLSVerify\":true}";
    }
    ∷ record { hostname = ""; service = "http_status:503"; path = ""; origin_request = "" }
    ∷ []

-- The rule of Plex is there for all paths and without its settings once another route is added.
add_tunnel_route_widens :
    (routed same_path plex "/" entries ≡ some ("http_status:503", ""))
    × (routed same_path plex "/" (add_tunnel_route simulated client wiki backend entries).1
        ≡ some ("http://10.0.0.2:32400", ""))
unfolding string_dec tunnel_enabled add_tunnel_route routed modify_ingress delete_stale find_record
    create_cname rewrite_ingress with_route
add_tunnel_route_widens = (refl, refl)

route-replace_route_example :
    route wiki (rewrite_ingress (replace_route plex wiki backend) old_rules)
    ≡ some (or_else (route wiki (keep is_named old_rules)) backend)
route-replace_route_example =
    route-replace_route plex wiki backend old_rules plex-named wiki-named plex-wiki
