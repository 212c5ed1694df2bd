-- ===== src/Store/Discovered.antt =====
-- The discovered services of internal/store/store.go: the list, its two indexes, and the objects
-- that all three point to.
pub mod Invariant
pub mod View
pub mod Clear
use homelab_homepage.Prelude.{
  ℕ, String, Bool, true, false, ◌&&◌, ◌||◌, not, Option, none, some, List, [], ◌∷◌, ◌++◌, ◌==◌,
  ◌!=◌, string_eq, nat_eq, if◌then◌else◌, any, find, keep,
}
use homelab_homepage.Prelude.{int_eq}
use homelab_homepage.Go.Map.{Map, lookup, insert, erase}
use homelab_homepage.Go.Heap.{Ref, Heap, alloc, write}
use homelab_homepage.Store.Data.{DiscoveredService, source_network, zero_discovered}

pub record Discovered : Type 0 where
  pub heap : Heap DiscoveredService
  pub discovered : List Ref
  pub discovered_idx : Map Ref
  pub discovered_container_idx : Map Ref

abbrev pub empty : Discovered
empty = record {
  heap = record { next = 0; cell = λ _. zero_discovered };
  discovered = [];
  discovered_idx = [];
  discovered_container_idx = [];
}

-- `*d`
abbrev pub deref : Discovered → Ref → DiscoveredService
deref t p = t.heap.cell p

unfoldable pub index_discovered : Ref → Discovered → Discovered
index_discovered p t =
    let d = deref t p in
    record t {
      discovered_idx = insert d.id p t.discovered_idx;
      discovered_container_idx =
          if d.container_id != ""
          then insert d.container_id p t.discovered_container_idx
          else t.discovered_container_idx;
    }

unfoldable pub unindex_discovered : Ref → Discovered → Discovered
unindex_discovered p t =
    let d = deref t p in
    record t {
      discovered_idx = erase d.id t.discovered_idx;
      discovered_container_idx =
          if d.container_id != ""
          then erase d.container_id t.discovered_container_idx
          else t.discovered_container_idx;
    }

-- `copy(out, s.d.Discovered)`: the list is fresh, the entries are shared.
pub get_all_discovered : Discovered → List Ref
get_all_discovered t = t.discovered

unfoldable pub get_discovered_by_id : String → Discovered → Option Ref
get_discovered_by_id id t = lookup id t.discovered_idx

unfoldable pub get_discovered_by_container_id : String → Discovered → Option Ref
get_discovered_by_container_id cid t = lookup cid t.discovered_container_idx

-- `_, exists := idx[cid]`
abbrev pub present : Option Ref → Bool
present none = false
present (some _) = true

abbrev pub same_address : Discovered → DiscoveredService → Ref → Bool
same_address t d p = (deref t p).ip == d.ip && (deref t p).port == d.port

append_discovered : DiscoveredService → Discovered → Discovered
unfolding index_discovered
append_discovered d t =
    index_discovered t.heap.next
      (record t { heap = alloc d t.heap; discovered = t.discovered ++ t.heap.next ∷ [] })

-- The two guards of `AddDiscovered`.
abbrev pub is_duplicate : DiscoveredService → Discovered → Bool
is_duplicate d t =
    (d.container_id != "" && present (lookup d.container_id t.discovered_container_idx))
    || any (same_address t d) t.discovered

unfoldable pub add_discovered : DiscoveredService → Discovered → Discovered
unfolding append_discovered
add_discovered d t = if is_duplicate d t then t else append_discovered d t

-- `if d := idx[k]; d != nil { s.unindexDiscovered(d) }`
abbrev unindex_found : Option Ref → Discovered → Discovered
unindex_found none t = t
unindex_found (some p) t = unindex_discovered p t

unfoldable pub remove_discovered : String → Discovered → Discovered
unfolding unindex_discovered
remove_discovered id t = record (unindex_found (lookup id t.discovered_idx) t) {
  discovered = keep (λ p. (deref t p).id != id) t.discovered;
}

unfoldable pub remove_discovered_by_container_id : String → Discovered → Discovered
unfolding unindex_discovered
remove_discovered_by_container_id cid t =
    record (unindex_found (lookup cid t.discovered_container_idx) t) {
      discovered = keep (λ p. (deref t p).container_id != cid) t.discovered;
    }

abbrev pub is_network : Discovered → Ref → Bool
is_network t p = (deref t p).source == source_network

-- The loop of `ClearNetworkDiscovered`, over the entries that are left and those that are kept.
pub clear_loop : List Ref → List Ref → Discovered → List Ref × Discovered
clear_loop [] kept t = (kept, t)
clear_loop (p ∷ ps) kept t =
    let gone = is_network t p in
    clear_loop ps (if gone then kept else kept ++ p ∷ [])
      (if gone then unindex_discovered p t else t)

unfoldable pub clear_network_discovered : Discovered → Discovered
unfolding clear_loop unindex_discovered
clear_network_discovered t =
    let (kept, t') = clear_loop t.discovered [] t in record t' { discovered = kept }

-- The test of `UpsertNetworkDiscovered` that does not `continue`.
abbrev pub is_known : Discovered → DiscoveredService → Ref → Bool
is_known t svc p = not (
    (deref t p).source != source_network
    || (deref t p).ip != svc.ip
    || (deref t p).port != svc.port)

abbrev pub refresh : DiscoveredService → DiscoveredService → DiscoveredService
refresh svc existing = record existing {
  title = svc.title;
  icon = svc.icon;
  service_name = svc.service_name;
  suggested_subdomain = svc.suggested_subdomain;
  confidence = svc.confidence;
  discovered_at = svc.discovered_at;
}

-- The result beside the state is the id of the entry that was created or updated.
unfoldable pub upsert_network_discovered : DiscoveredService → Discovered → String × Discovered
unfolding append_discovered
upsert_network_discovered svc t = elim (find (is_known t svc) t.discovered) [
  | some p ↦ ((deref t p).id, record t { heap = write p (refresh svc (deref t p)) t.heap })
  | none ↦ (svc.id, append_discovered svc t)
]

unfoldable pub update_discovered_icon : String → String → Discovered → Discovered
update_discovered_icon id icon t = elim (lookup id t.discovered_idx) [
  | none ↦ t
  | some p ↦ record t { heap = write p (record (deref t p) { icon = icon }) t.heap }
]
