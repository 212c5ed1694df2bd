-- ===== src/Web/Services.antt =====
-- The handlers of internal/web/handle_services.go that change services. A form is given by its
-- decoded values, `none` where its parsing fails; `s.save()` is in Store/Save.
pub mod Create
use mathlib.Core.Option
use homelab_homepage.Prelude.{
  ℕ, String, ◌<>◌, Bool, true, false, ◌&&◌, ◌||◌, not, Option, none, some, List, [], ◌∷◌, ◌==◌,
  ◌!=◌, string_eq, if◌then◌else◌, ℤ, pos, negsuc, ltℤ, zero, suc,
}
use homelab_homepage.Go.Map.{Map, lookup, insert, erase}
use homelab_homepage.Go.Heap.{Ref}
use homelab_homepage.Go.Text.{or_else}
use homelab_homepage.Util.{parse_form_bool, is_https_port}
use homelab_homepage.Util.Subdomain.{sanitise_subdomain}
use homelab_homepage.Store.Data.{
  Service, DiscoveredService, source_docker, source_manual, icon_file, zero_discovered,
}
use homelab_homepage.Store.Services
use homelab_homepage.Store.Services.{
  Services, add_service, update_service, delete_service, get_service_by_id,
  get_service_by_subdomain, get_all_services,
}
use homelab_homepage.Store.Discovered
use homelab_homepage.Store.Discovered.{
  Discovered, present, add_discovered, remove_discovered, get_discovered_by_id,
}
use homelab_homepage.Store.State.{Store}
use homelab_homepage.Cf.Act.{Result, ok, err, Act, attempt, caught}
use homelab_homepage.Cf.Api.{Api}
use homelab_homepage.Cf.Client.{Client}
use homelab_homepage.Cf.Dns.{delete_record}
use homelab_homepage.Cf.Tunnel.{remove_tunnel_route}
use homelab_homepage.Discovery.Target.{target_of}
use homelab_homepage.Web.Dns.{DnsState, reconcile_dns}
use homelab_homepage.Web.Server.{
  Server, Setup, Draw, Status, ok_status, no_content, bad_request, not_found, conflict, write_icon,
}

pub record CreateForm : Type 0 where
  pub discovered_id : String
  pub name : String
  pub subdomain : String
  pub target : String
  pub category : String
  pub tunnel : String
  pub direct_only : String
  pub skip_health : String
  -- the bytes of an icon; empty when none was sent
  pub upload : String

-- What the new service takes from the form, or from the discovered entry.
pub record Origin : Type 0 where
  pub target : String
  pub name : String
  pub source : String
  pub container_id : String
  pub container_name : String
  pub icon : String

abbrev pub cmp_or : String → String → String
cmp_or a b = if a != "" then a else b

abbrev pub origin_of_discovered : CreateForm → DiscoveredService → Origin
origin_of_discovered f disc = record {
  target = target_of (if is_https_port disc.port then "https" else "http") disc.ip disc.port;
  name = if f.name == "" then disc.title else f.name;
  source = disc.source;
  container_id = disc.container_id;
  container_name = disc.container_name;
  icon = disc.icon;
}

abbrev pub origin_of_form : CreateForm → Origin
origin_of_form f = record {
  target = f.target;
  name = f.name;
  source = source_manual;
  container_id = "";
  container_name = "";
  icon = "";
}

-- `none` stands for an entry that is not there.
unfoldable pub origin : CreateForm → Store → Option Origin
origin f st =
    if f.discovered_id != ""
    then Option.map (λ p. origin_of_discovered f (Discovered.deref st.discovered p))
        (get_discovered_by_id f.discovered_id st.discovered)
    else some (origin_of_form f)

-- The loop over the orders, from 0.
abbrev pub max_order : Services → ℤ → List Ref → ℤ
max_order t best [] = best
max_order t best (p ∷ ps) =
    max_order t (if ltℤ best (Services.deref t p).order then (Services.deref t p).order else best)
      ps

-- n + 1
abbrev pub succ : ℤ → ℤ
succ (pos n) = pos (suc n)
succ (negsuc zero) = pos 0
succ (negsuc (suc n)) = negsuc n

abbrev pub direct_state : DnsState
direct_state = record {
  subdomain = "";
  target = "";
  direct_only = true;
  tunnel = false;
  dns_record_id = "";
  tunnel_route_id = "";
}

abbrev pub dns_of : Service → DnsState
dns_of svc = record {
  subdomain = svc.subdomain;
  target = svc.target;
  direct_only = svc.direct_only;
  tunnel = svc.tunnel_route_id != "";
  dns_record_id = svc.dns_record_id;
  tunnel_route_id = svc.tunnel_route_id;
}

-- The two ids that the reconciliation returns.
abbrev pub ids_of : Result (String × String) → String × String
ids_of (ok ids) = ids
ids_of (err e) = ("", "")

-- The uploaded icon, else the discovered one.
abbrev pub icon_of : CreateForm → Origin → String
icon_of f o = if f.upload != "" then icon_file else o.icon

abbrev pub new_service : Draw → CreateForm → String → Origin → Services → Service
new_service draw f sub o t = record {
  id = draw.new_id;
  name = if o.name == "" then sub else o.name;
  subdomain = if parse_form_bool f.direct_only then "_direct_" <> draw.new_id else sub;
  target = o.target;
  icon = icon_of f o;
  category = f.category;
  order = succ (max_order t (pos 0) (get_all_services t));
  source = o.source;
  container_id = o.container_id;
  container_name = o.container_name;
  dns_record_id = "";
  tunnel_route_id = "";
  skip_health = parse_form_bool f.skip_health;
  direct_only = parse_form_bool f.direct_only;
  created_at = draw.now;
}

abbrev pub wanted_state : CreateForm → Service → DnsState
wanted_state f svc = record {
  subdomain = svc.subdomain;
  target = svc.target;
  direct_only = svc.direct_only;
  tunnel = parse_form_bool f.tunnel;
  dns_record_id = "";
  tunnel_route_id = "";
}

-- The icon file of the discovered entry is copied if it is there.
abbrev pub copy_icon : Draw → Option String → Map String → Map String
copy_icon draw none icons = icons
copy_icon draw (some bytes) icons = write_icon draw draw.new_id bytes icons

module _ (api : Api) (setup : Setup) where
  abbrev pub reconcile : DnsState → DnsState → api.World → (String × String) × api.World
  reconcile old want w =
      let (r, w') = reconcile_dns api setup.client setup.domain setup.server_ip old want w in
      (ids_of r, w')

  unfoldable pub created : Draw → CreateForm → String → Origin → Server api → Server api
  created draw f sub o s =
      let svc = new_service draw f sub o s.store.services in
      let ((dns_id, route), w) = reconcile direct_state (wanted_state f svc) s.world in
      let icons =
        if f.upload != "" then write_icon draw draw.new_id f.upload s.icons else s.icons in
      let copied = copy_icon draw (lookup f.discovered_id icons) icons in
      let icon = if f.upload != "" && not draw.writable then "" else svc.icon in
      record {
        store = record s.store {
          services =
              add_service
                (record svc { icon = icon; dns_record_id = dns_id; tunnel_route_id = route })
                s.store.services;
          discovered =
              if f.discovered_id != ""
              then remove_discovered f.discovered_id s.store.discovered
              else s.store.discovered;
        };
        icons = if f.discovered_id != "" && o.icon == icon_file then copied else icons;
        world = w;
      }

  abbrev pub create_from :
      Draw → CreateForm → String → Option Origin → Server api → Status × Server api
  create_from draw f sub none s = (not_found, s)
  create_from draw f sub (some o) s =
      if o.target == "" then (bad_request, s) else (no_content, created draw f sub o s)

  unfoldable pub create_service : Draw → Option CreateForm → Server api → Status × Server api
  create_service draw none s = (bad_request, s)
  create_service draw (some f) s =
      let sub = sanitise_subdomain setup.lower f.subdomain in
      let direct = parse_form_bool f.direct_only in
      if not direct && sub == ""
      then (bad_request, s)
      else if not direct && present (get_service_by_subdomain sub s.store.services)
      then (conflict, s)
      else create_from draw f sub (origin f s.store) s
