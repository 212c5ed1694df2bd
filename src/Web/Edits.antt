-- ===== src/Web/Edits.antt =====
-- The handlers of internal/web/handle_services.go and handle_discovery.go that change a service or a
-- discovered entry that is there. `FormValue` is a function; a form whose parsing fails is `none`.
pub mod Effects
use homelab_homepage.Prelude.{
  ℕ, String, ◌<>◌, Bool, true, false, ◌&&◌, ◌||◌, not, Option, none, some, ◌==◌, ◌!=◌, string_eq,
  if◌then◌else◌, ℤ, pos,
}
use homelab_homepage.Go.Map.{Map, lookup}
use homelab_homepage.Go.Heap.{Ref}
use homelab_homepage.Go.Text.{or_else}
use homelab_homepage.Util.{parse_form_bool}
use homelab_homepage.Util.Subdomain.{sanitise_subdomain}
use homelab_homepage.Store.Data.{
  Service, DiscoveredService, IgnoredService, source_docker, source_network,
}
use homelab_homepage.Store.Services
use homelab_homepage.Store.Services.{Services, get_service_by_id}
use homelab_homepage.Store.Discovered.{add_discovered, remove_discovered}
use homelab_homepage.Store.Ignored
use homelab_homepage.Store.State.{Store}
use homelab_homepage.Cf.Act.{Act, attempt, pure}
use homelab_homepage.Cf.Api.{Api}
use homelab_homepage.Cf.Dns.{delete_record}
use homelab_homepage.Cf.Tunnel.{remove_tunnel_route}
use homelab_homepage.Web.Dns.{DnsState}
use homelab_homepage.Web.Server.{
  Server, Setup, Draw, Status, ok_status, no_content, bad_request, not_found, delete_icon,
}
use homelab_homepage.Web.Services.{cmp_or, dns_of, reconcile}

-- `none` keeps what is there.
pub record UpdateRequest : Type 0 where
  pub name : String
  pub subdomain : String
  pub target : String
  pub category : String
  pub icon : Option String
  pub tunnel : Option Bool
  pub skip_health : Option Bool
  pub direct_only : Option Bool

abbrev pub update_request : (String → String) → UpdateRequest
update_request form_value = record {
  name = form_value "name";
  subdomain = form_value "subdomain";
  target = form_value "target";
  category = form_value "category";
  icon = if form_value "icon_present" == "1" then some (form_value "icon") else none;
  tunnel =
      if form_value "tunnel_present" == "1"
      then some (parse_form_bool (form_value "tunnel"))
      else none;
  skip_health =
      if form_value "skip_health_present" == "1"
      then some (parse_form_bool (form_value "skip_health"))
      else none;
  direct_only =
      if form_value "direct_only_present" == "1"
      then some (parse_form_bool (form_value "direct_only"))
      else none;
}

abbrev pub new_subdomain : (String → String) → UpdateRequest → Service → String
new_subdomain sanitise req svc =
    let sub = sanitise req.subdomain in
    if or_else req.direct_only svc.direct_only
    then (if svc.direct_only then svc.subdomain else "_direct_" <> svc.id)
    else (if sub == "" then svc.subdomain else sub)

-- The service that is stored, but for its DNS ids.
unfoldable pub updated_service : (String → String) → UpdateRequest → Service → Service
updated_service sanitise req svc = record svc {
  name = cmp_or req.name svc.name;
  subdomain = new_subdomain sanitise req svc;
  target = cmp_or req.target svc.target;
  icon = or_else req.icon svc.icon;
  category = req.category;
  skip_health = or_else req.skip_health svc.skip_health;
  direct_only = or_else req.direct_only svc.direct_only;
  dns_record_id = "";
  tunnel_route_id = "";
}

abbrev pub wanted_update : UpdateRequest → Service → Service → DnsState
wanted_update req svc updated = record {
  subdomain = updated.subdomain;
  target = updated.target;
  direct_only = updated.direct_only;
  tunnel = or_else req.tunnel (svc.tunnel_route_id != "");
  dns_record_id = "";
  tunnel_route_id = "";
}

-- The entry under which a deleted service's container is discovered again.
abbrev pub rediscovered : Draw → Service → DiscoveredService
rediscovered draw svc = record {
  id = draw.new_id;
  ip = "";
  port = pos 0;
  title = svc.name;
  icon = "";
  service_name = "";
  confidence = 0;
  source = source_docker;
  container_name = svc.container_name;
  container_id = svc.container_id;
  suggested_subdomain = "";
  discovered_at = draw.now;
}

abbrev pub unignored : Draw → IgnoredService → DiscoveredService
unignored draw ig = record {
  id = ig.id;
  ip = ig.ip;
  port = ig.port;
  title = ig.title;
  icon = "";
  service_name = "";
  confidence = 0;
  source = source_network;
  container_name = "";
  container_id = "";
  suggested_subdomain = "";
  discovered_at = draw.now;
}

module _ (api : Api) (setup : Setup) where
  abbrev pub update_found : String → UpdateRequest → Service → Server api → Server api
  update_found id req svc s =
      let updated = updated_service (sanitise_subdomain setup.lower) req svc in
      let ((dns_id, route), w) =
        reconcile api setup (dns_of svc) (wanted_update req svc updated) s.world in
      record s {
        store = record s.store {
          services =
              (Services.update_service id
                (record updated { dns_record_id = dns_id; tunnel_route_id = route })
                s.store.services).1;
        };
        world = w;
      }

  abbrev pub update_of :
      String → Option (String → String) → Option Ref → Server api → Status × Server api
  update_of id form none s = (not_found, s)
  update_of id none (some p) s = (bad_request, s)
  update_of id (some form_value) (some p) s = (
    no_content,
    update_found id (update_request form_value) (Services.deref s.store.services p) s,
  )

  unfoldable pub update_service :
      String → Option (String → String) → Server api → Status × Server api
  update_service id form s = update_of id form (get_service_by_id id s.store.services) s

  -- The record or the route of a deleted service is removed; errors are logged.
  unfoldable pub withdraw_dns : String → String → Act api.World (Option (Unit {0}))
  withdraw_dns dns_id route =
      if route != ""
      then attempt (remove_tunnel_route api setup.client route dns_id)
      else if dns_id != ""
      then attempt (delete_record api setup.client dns_id)
      else pure none

  abbrev pub delete_found : Draw → String → Service → Server api → Server api
  delete_found draw id svc s =
      let ((sub, dns_id, route), services) = Services.delete_service id s.store.services in
      let (r, w) = withdraw_dns dns_id route s.world in
      record {
        store = record s.store {
          services = services;
          discovered =
              if svc.source == source_docker && svc.container_id != ""
              then add_discovered (rediscovered draw svc) s.store.discovered
              else s.store.discovered;
        };
        icons = delete_icon setup.icon_dir draw.removable id s.icons;
        world = w;
      }

  abbrev pub delete_of : Draw → String → Option Ref → Server api → Server api
  delete_of draw id none s = s
  delete_of draw id (some p) s = delete_found draw id (Services.deref s.store.services p) s

  -- The status is 200 in both cases.
  unfoldable pub delete_service : Draw → String → Server api → Status × Server api
  delete_service draw id s =
      (ok_status, delete_of draw id (get_service_by_id id s.store.services) s)

-- Of `handle_discovery.go`: the parts that change the store. `none` is the status 404.
abbrev pub unignored_store : Draw → Option (IgnoredService × Ignored.Ignored) → Store → Option Store
unignored_store draw none st = none
unignored_store draw (some (ig, rest)) st =
    some
      (record st { discovered = add_discovered (unignored draw ig) st.discovered; ignored = rest })

unfoldable pub unignore_service : Draw → String → Store → Option Store
unignore_service draw id st = unignored_store draw (Ignored.unignore_service id st.ignored) st
