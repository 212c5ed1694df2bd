-- ===== src/Store/Services.antt =====
-- The services of internal/store/store.go: the map by subdomain, the three secondary indexes, and
-- the objects that all four point to.
pub mod Invariant
pub mod Complete
pub mod View
pub mod Conflict
use homelab_homepage.Prelude.{
  ℕ, suc, String, Bool, ◌&&◌, Option, none, some, List, [], ◌∷◌, map, ◌==◌, ◌!=◌, string_eq, nat_eq,
  if◌then◌else◌,
}
use homelab_homepage.Prelude.{pos}
use homelab_homepage.Go.Map.{Map, lookup, insert, erase, values}
use homelab_homepage.Go.Heap.{Ref, Heap, alloc, write}
use homelab_homepage.Store.Data.{Service, source_docker, zero_service}

pub record Services : Type 0 where
  pub heap : Heap Service
  pub services : Map Ref
  pub id_idx : Map Ref
  pub container_id_idx : Map Ref
  pub container_name_idx : Map Ref

abbrev pub empty : Services
empty = record {
  heap = record { next = 0; cell = λ _. zero_service };
  services = [];
  id_idx = [];
  container_id_idx = [];
  container_name_idx = [];
}

-- `*svc`
abbrev pub deref : Services → Ref → Service
deref t p = t.heap.cell p

unfoldable pub index_service : Ref → Services → Services
index_service p t =
    let svc = deref t p in
    record t {
      id_idx = insert svc.id p t.id_idx;
      container_id_idx =
          if svc.container_id != ""
          then insert svc.container_id p t.container_id_idx
          else t.container_id_idx;
      container_name_idx =
          if svc.source == source_docker && svc.container_name != ""
          then insert svc.container_name p t.container_name_idx
          else t.container_name_idx;
    }

unfoldable pub unindex_service : Ref → Services → Services
unindex_service p t =
    let svc = deref t p in
    record t {
      id_idx = erase svc.id t.id_idx;
      container_id_idx = erase svc.container_id t.container_id_idx;
      container_name_idx = erase svc.container_name t.container_name_idx;
    }

unfoldable pub get_all_services : Services → List Ref
get_all_services t = values t.services

unfoldable pub get_service_by_subdomain : String → Services → Option Ref
get_service_by_subdomain sub t = lookup sub t.services

unfoldable pub get_service_by_id : String → Services → Option Ref
get_service_by_id id t = lookup id t.id_idx

unfoldable pub get_service_by_container_id : String → Services → Option Ref
get_service_by_container_id cid t = lookup cid t.container_id_idx

unfoldable pub get_service_by_container_name : String → Services → Option Ref
get_service_by_container_name name t = lookup name t.container_name_idx

-- The branch of `ClearContainerID` for a container that is known.
clear_found : String → Ref → Services → Services
clear_found cid p t = record t {
  heap = write p (record (deref t p) { container_id = "" }) t.heap;
  container_id_idx = erase cid t.container_id_idx;
}

unfoldable pub clear_container_id : String → Services → Services
unfolding clear_found
clear_container_id cid t = elim (lookup cid t.container_id_idx) [
  | none ↦ t
  | some p ↦ clear_found cid p t
]

-- The caller's `&Service{…}` is allocated here; its address is `t.heap.next`.
unfoldable pub add_service : Service → Services → Services
unfolding index_service
add_service svc t =
    let p = t.heap.next in
    index_service p
      (record t { heap = alloc svc t.heap; services = insert svc.subdomain p t.services })

-- The branch of `UpdateService` for an id that is known; the caller's `updated` is allocated here.
replace_found : Ref → Service → Services → Services
unfolding index_service unindex_service
replace_found p updated t =
    let old_sub = (deref t p).subdomain in
    let t₁ = unindex_service p t in
    let q = t.heap.next in
    index_service q (record t₁ {
      heap = alloc updated t.heap;
      services = insert updated.subdomain q (erase old_sub t.services);
    })

-- The result beside the state is (oldSub, oldDNSID).
unfoldable pub update_service : String → Service → Services → (String × String) × Services
unfolding replace_found
update_service id updated t = elim (lookup id t.id_idx) [
  | none ↦ (("", ""), t)
  | some p ↦ (((deref t p).subdomain, (deref t p).dns_record_id), replace_found p updated t)
]

delete_found : Ref → Services → Services
unfolding unindex_service
delete_found p t = record (unindex_service p t) {
  services = erase (deref t p).subdomain t.services;
}

-- The result beside the state is (sub, dnsID, tunnelRoute).
unfoldable pub delete_service : String → Services → (String × String × String) × Services
unfolding delete_found
delete_service id t = elim (lookup id t.id_idx) [
  | none ↦ (("", "", ""), t)
  | some p ↦ (
    ((deref t p).subdomain, (deref t p).dns_record_id, (deref t p).tunnel_route_id),
    delete_found p t,
  )
]

-- One round of the loop of `ReorderServices`.
pub set_order : ℕ → String → Services → Services
set_order i id t = elim (lookup id t.id_idx) [
  | none ↦ t
  | some p ↦ record t { heap = write p (record (deref t p) { order = pos i }) t.heap }
]

pub reorder_from : ℕ → List String → Services → Services
unfolding set_order
reorder_from i [] t = t
reorder_from i (id ∷ ids) t = reorder_from (suc i) ids (set_order i id t)

unfoldable pub reorder_services : List String → Services → Services
unfolding reorder_from
reorder_services ids t = reorder_from 0 ids t
