-- ===== src/Discovery/Tests.antt =====
-- Containers and scans at concrete inputs.
mod Network
use homelab_homepage.Prelude.{
  String, ◌≡◌, ◌≢◌, refl, true, false, none, some, List, [], ◌∷◌, string_dec, string_eq, nat_eq,
  arith, differ, pos, ℕ_discrete, inr, contains, any,
}
use homelab_homepage.Go.Map.{Map, lookup, insert}
use homelab_homepage.Store.Data.{Service, source_docker, source_manual, zero_service, zero_ignored}
use homelab_homepage.Store.Services
use homelab_homepage.Store.Services.{add_service, get_all_services}
use homelab_homepage.Store.Services.Invariant.{add_service-IsIndexed}
use homelab_homepage.Store.Services.View.{view}
use homelab_homepage.Store.Discovered
use homelab_homepage.Store.Discovered.{clear_network_discovered}
use homelab_homepage.Store.Discovered.View.{view as view_discovered}
use homelab_homepage.Store.Ignored
use homelab_homepage.Store.State
use homelab_homepage.Discovery.Scan.{
  ProbeResult, entry_of, run_scan, run_light_scan, is_assigned_target, assigned_targets,
}
use homelab_homepage.Discovery.Scan.Effects.{
  Shows, is_allowed, run_scan_ignored, run_light_scan_shown,
}
use homelab_homepage.Store.State.{Store, IsIndexed}
use homelab_homepage.Discovery.Target.{
  PortSummary, target_of, split_target, preserve_scheme, best_port, is_published, preferred,
}
use homelab_homepage.Discovery.Target.Ports.{is_at, best_port-published, best_port-preferred}
use homelab_homepage.Discovery.Target.RoundTrip.{split_target-target_of, preserve_scheme-target_of}
use homelab_homepage.Discovery.Container.{Outside, ContainerInfo}
use homelab_homepage.Discovery.Docker.{upsert_container_with_labels}
use homelab_homepage.Discovery.Docker.Indexed.{
  upsert_container_with_labels-IsIndexed, upsert_container_with_labels_other,
}

abbrev ports : List PortSummary
ports =
    record { kind = "tcp"; private_port = 32400; public_port = 32400 }
    ∷ record { kind = "tcp"; private_port = 80; public_port = 8080 }
    ∷ []

abbrev outside : Outside
outside = record {
  domain = "example.com";
  server_ip = "10.0.0.2";
  lower = λ c. c;
  find_host = λ s. none;
  scheme_reachable = λ ip port scheme. true;
}

abbrev labels : Map String
labels = ("lantern.url", "https://10.0.0.7:32400") ∷ []

abbrev info : ContainerInfo
info = record { name = "plex"; subdomain = "plex"; target = "https://10.0.0.7:32400" }

abbrev plex : Service
plex = record zero_service {
  id = "s1";
  name = "My films";
  subdomain = "films";
  target = "http://10.0.0.2:32400";
  source = source_docker;
  container_id = "c1";
  container_name = "plex";
}

abbrev store : Store
store = record State.empty { services = add_service plex Services.empty }

store-IsIndexed : IsIndexed store
unfolding lookup
store-IsIndexed = record {
  services = add_service-IsIndexed plex Services.empty Services.Invariant.empty-IsIndexed refl refl;
  discovered = record {
    listed = λ p h. cc;
    by_id = λ i p h. cc;
    held = λ p h k. cc;
    by_container = λ c p h. cc;
  };
  ignored = record { listed = λ p h. cc; by_id = λ i p h. cc };
}

upsert_container_with_labels-IsIndexed_example :
    IsIndexed (upsert_container_with_labels "d1" 5 "c2" "wiki" outside ports [] store)
unfolding lookup
upsert_container_with_labels-IsIndexed_example =
    upsert_container_with_labels-IsIndexed "d1" 5 "c2" "wiki" store store-IsIndexed refl outside
      ports []

abbrev c1 : String
c1 = "c1"

abbrev wiki : Service
wiki = record zero_service { id = "s2"; name = "Wiki"; subdomain = "plex"; source = source_manual }

abbrev manual : Store
manual = record State.empty { services = add_service wiki Services.empty }

manual-IsIndexed : IsIndexed manual
unfolding lookup
manual-IsIndexed = record {
  services = add_service-IsIndexed wiki Services.empty Services.Invariant.empty-IsIndexed refl refl;
  discovered = record {
    listed = λ p h. cc;
    by_id = λ i p h. cc;
    held = λ p h k. cc;
    by_container = λ c p h. cc;
  };
  ignored = record { listed = λ p h. cc; by_id = λ i p h. cc };
}

manual-source : wiki.source ≢ source_docker
unfolding string_dec
manual-source = differ wiki.source source_docker refl

-- A container whose subdomain a manual service has.
upsert_container_with_labels_other_example :
    view (upsert_container_with_labels "d1" 5 "c2" "plex" outside ports labels manual).services "s2"
    ≡ some wiki
unfolding lookup insert add_service string_dec ℕ_discrete view
upsert_container_with_labels_other_example =
    upsert_container_with_labels_other "d1" 5 "c2" "plex" manual manual-IsIndexed "s2" wiki refl
      manual-source outside ports labels

-- A printer whose address is ignored.
abbrev printer : ProbeResult
printer = record {
  ip = "10.0.0.9";
  port = pos 80;
  url = "http://10.0.0.9:80";
  title = "Printer";
  icon = "";
  service_name = "";
  confidence = 50;
  new_id = "d3";
  now = 8;
}

abbrev scanned : Store
scanned = record State.empty {
  ignored = record Ignored.empty {
    heap = record {
      next = 1;
      cell = λ _. record zero_ignored { id = "d2"; ip = "10.0.0.9"; port = pos 80 };
    };
    ignored = 0 ∷ [];
  };
}

scanned-IsIndexed : Discovered.Invariant.IsIndexed scanned.discovered
unfolding lookup
scanned-IsIndexed = record {
  listed = λ p h. cc;
  by_id = λ i p h. cc;
  held = λ p h k. cc;
  by_container = λ c p h. cc;
}

run_scan_ignored_example :
    Shows (is_allowed scanned) (run_scan (printer ∷ []) scanned)
    × Discovered.Invariant.IsIndexed (run_scan (printer ∷ []) scanned).discovered
unfolding lookup clear_network_discovered
run_scan_ignored_example = run_scan_ignored (printer ∷ []) scanned scanned-IsIndexed (refl, tt)
