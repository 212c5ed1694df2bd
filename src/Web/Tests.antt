-- ===== src/Web/Tests.antt =====
-- The server's theorems at concrete requests, states and times.
mod Pages
use homelab_homepage.Prelude.{
  ℕ, String, ◌≡◌, ◌≢◌, refl, true, false, ◌&&◌, none, some, [], ◌∷◌, string_dec, string_eq, ◌==◌,
  if◌then◌else◌, arith, differ, ℕ_discrete, ◌+◌, ltb,
}
use homelab_homepage.Go.Map.{lookup, insert}
use homelab_homepage.Go.Text.{is_some}
use homelab_homepage.Store.Icons.{safe_icon_path}
use homelab_homepage.Util.Subdomain.{sanitise_subdomain}
use homelab_homepage.Store.Data.{Service, source_manual, zero_service, icon_file}
use homelab_homepage.Store.Services
use homelab_homepage.Store.Services.{add_service}
use homelab_homepage.Store.Services.Invariant.{add_service-IsIndexed}
use homelab_homepage.Store.Services.View.{view}
use homelab_homepage.Store.State
use homelab_homepage.Store.State.{Store, IsIndexed}
use homelab_homepage.Cf.Client.{Client}
use homelab_homepage.Cf.Tests.{simulated, client}
use homelab_homepage.Web.Dns.{DnsState, mode, plan_dns, reconcile_dns, hostname_of}
use homelab_homepage.Web.Dns.Plan.{is_noop, same_mode, same_use, plan_dns-noop}
use homelab_homepage.Web.Dns.Outcome.{Ends, reconcile_dns-IsStored, reconcile_dns_off}
use homelab_homepage.Web.TtlCache.{TtlCache, new_ttl_cache, set, get}
use homelab_homepage.Web.TtlCache.Bounds.{IsBounded, set-IsBounded, get-set}
use homelab_homepage.Web.Server.{Server, Setup, Draw}
use homelab_homepage.Web.Services.{CreateForm, Origin, create_service, created, origin_of_form}
use homelab_homepage.Web.Services.Create.{
  Answers, status_of, create_service_status, create_service-IsIndexed, created_icon,
}
use homelab_homepage.Web.Edits.{delete_service}
use homelab_homepage.Web.Edits.Effects.{delete_service_lem}

abbrev as_record : DnsState
as_record = record {
  subdomain = "plex";
  target = "http://10.0.0.2:32400";
  direct_only = false;
  tunnel = false;
  dns_record_id = "r0";
  tunnel_route_id = "";
}

abbrev as_tunnel : DnsState
as_tunnel = record as_record { tunnel = true; dns_record_id = "" }

reconcile_dns-IsStored_example :
    Ends simulated client "example.com" "10.0.0.1"
      (mode as_tunnel)
      (reconcile_dns simulated client "example.com" "10.0.0.1" as_record as_tunnel [])
reconcile_dns-IsStored_example =
    reconcile_dns-IsStored simulated client "example.com" "10.0.0.1" as_record as_tunnel [] refl

abbrev host : String
host = hostname_of "example.com" as_tunnel

abbrev cache : TtlCache ℕ
cache = new_ttl_cache 1

cache-IsBounded : IsBounded cache
unfolding lookup
cache-IsBounded = (tt, refl, omega arith)

abbrev key : String
key = "favicon"

key-named : key ≢ ""
unfolding string_dec
key-named = differ key "" refl

abbrev other_key : String
other_key = "health"

other-named : other_key ≢ ""
unfolding string_dec
other-named = differ other_key "" refl

abbrev full : TtlCache ℕ
full = set 5 key 60 3 cache

full-IsBounded : IsBounded full
full-IsBounded = set-IsBounded 5 3 key 60 cache cache-IsBounded (omega arith) key-named

-- A second key at a cap of one.
set-IsBounded_example : IsBounded (set 9 other_key 70 4 full)
unfolding set
set-IsBounded_example = set-IsBounded 9 4 other_key 70 full full-IsBounded (omega arith) other-named

abbrev wiki : Service
wiki = record zero_service { id = "s2"; name = "Wiki"; subdomain = "wiki"; source = source_manual }

abbrev store : Store
store = record State.empty { services = add_service wiki Services.empty }

store-IsIndexed : IsIndexed store
unfolding lookup
store-IsIndexed = record {
  services = add_service-IsIndexed wiki Services.empty Services.Invariant.empty-IsIndexed refl refl;
  discovered = record {
    listed = λ p h. cc;
    by_id = λ i p h. cc;
    held = λ p h k. cc;
    by_container = λ c p h. cc;
  };
  ignored = record { listed = λ p h. cc; by_id = λ i p h. cc };
}

abbrev server : Server simulated
server = record { store = store; icons = ("d7", "bytes") ∷ []; world = [] }

abbrev setup : Setup
setup = record {
  domain = "example.com";
  server_ip = "10.0.0.1";
  icon_dir = "/data/icons";
  client = client;
  lower = λ c. c;
}

abbrev draw : Draw
draw = record { new_id = "n1"; now = 3; writable = true; removable = true }

abbrev form : CreateForm
form = record {
  discovered_id = "d7";
  name = "";
  subdomain = "Plex";
  target = "http://10.0.0.9";
  category = "";
  tunnel = "";
  direct_only = "";
  skip_health = "";
  upload = "mine";
}

create_service_status_example :
    Answers simulated server
      (status_of (some form) (sanitise_subdomain setup.lower) store)
      (create_service simulated setup draw (some form) server)
create_service_status_example = create_service_status simulated setup draw (some form) server

delete_service_lem_example :
    IsIndexed (delete_service simulated setup draw "s2" server).1.store
    × ((i : String)
        → view (delete_service simulated setup draw "s2" server).1.store.services i
          ≡ (if "s2" == i then none else view store.services i))
    × (view store.services "s2" ≢ none
        → lookup "s2" (delete_service simulated setup draw "s2" server).1.icons ≡ (
            if is_some (safe_icon_path setup.icon_dir "s2") && draw.removable
            then none
            else lookup "s2" server.icons))
unfolding lookup
delete_service_lem_example =
    delete_service_lem simulated setup "s2" server store-IsIndexed draw refl
