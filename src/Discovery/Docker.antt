-- ===== src/Discovery/Docker.antt =====
-- internal/discovery/docker.go: containers that start and stop. Of a container that is new the icon
-- is fetched later, by another goroutine, which is not modelled here.
pub mod Indexed
pub mod Restart
use homelab_homepage.Prelude.{
  ℕ, String, Bool, ◌||◌, Option, none, some, List, ◌==◌, string_eq, if◌then◌else◌, ℤ,
}
use homelab_homepage.Go.Map.{Map}
use homelab_homepage.Go.Heap.{Ref}
use homelab_homepage.Store.Data.{Service, DiscoveredService, source_docker}
use homelab_homepage.Store.Services
use homelab_homepage.Store.Services.{
  Services, update_service, clear_container_id, get_service_by_container_id,
  get_service_by_container_name, get_service_by_subdomain,
}
use homelab_homepage.Store.Discovered.{
  Discovered, present, add_discovered, remove_discovered_by_container_id,
  get_discovered_by_container_id,
}
use homelab_homepage.Store.State.{Store}
use homelab_homepage.Discovery.Target.{PortSummary, split_target, preserve_scheme}
use homelab_homepage.Discovery.Container.{Outside, ContainerInfo, label, resolve_container}

-- The two updates of a service that is attached again: by the name of its container, and by its
-- subdomain, where the name is filled in.
abbrev pub attached : String → String → Service → Service
attached id target s = record s { container_id = id; target = preserve_scheme s.target target }

abbrev pub attached_as : String → String → String → Service → Service
attached_as id name target s = record s {
  container_id = id;
  container_name = name;
  target = preserve_scheme s.target target;
}

unfoldable pub reattach : Service → Store → Store
reattach updated st = record st { services = (update_service updated.id updated st.services).1 }

abbrev pub discovered_of : String → ℕ → String → ContainerInfo → DiscoveredService
discovered_of new_id now id info =
    let (ip, port) = split_target info.target in
    record {
      id = new_id;
      ip = ip;
      port = port;
      title = info.name;
      icon = "";
      service_name = "";
      confidence = 0;
      source = source_docker;
      container_name = info.name;
      container_id = id;
      suggested_subdomain = info.subdomain;
      discovered_at = now;
    }

-- `new_id` is `util.NewID()` and `now` is `time.Now()`.
unfoldable pub add_docker_discovered : String → ℕ → String → ContainerInfo → Store → Store
add_docker_discovered new_id now id info st =
    if present (get_discovered_by_container_id id st.discovered)
    then st
    else record st { discovered = add_discovered (discovered_of new_id now id info) st.discovered }

module _ (new_id : String) (now : ℕ) (id name : String) where
  -- The rest of the operation for a service with the subdomain, and without one.
  unfoldable pub upsert_by_subdomain : ContainerInfo → Option Ref → Store → Store
  upsert_by_subdomain info none st = add_docker_discovered new_id now id info st
  upsert_by_subdomain info (some p) st =
      let existing = Services.deref st.services p in
      if existing.source == source_docker
      then reattach (attached_as id name info.target existing) st
      else add_docker_discovered new_id now id info st

  unfoldable pub upsert_by_name : ContainerInfo → Option Ref → Store → Store
  upsert_by_name info (some p) st =
      reattach (attached id info.target (Services.deref st.services p)) st
  upsert_by_name info none st =
      upsert_by_subdomain info (get_service_by_subdomain info.subdomain st.services) st

  unfoldable pub upsert_resolved : Option ContainerInfo → Store → Store
  upsert_resolved none st = st
  upsert_resolved (some info) st =
      upsert_by_name info (get_service_by_container_name name st.services) st

  unfoldable pub upsert_container_with_labels :
      Outside → List PortSummary → Map String → Store → Store
  upsert_container_with_labels out ports labels st =
      let resolved = upsert_resolved (resolve_container out name ports labels) st in
      if name == "" || name == "lantern"
      then st
      else if label "lantern.enable" labels == "false"
      then st
      else if present (get_service_by_container_id id st.services)
      then st
      else resolved

unfoldable pub detach_container : String → Store → Store
detach_container id st = record st {
  services = clear_container_id id st.services;
  discovered = remove_discovered_by_container_id id st.discovered;
}
