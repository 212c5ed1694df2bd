-- ===== src/Store/Ignored.antt =====
-- The ignored services of internal/store/store.go, and the two operations that move an entry
-- between the discovered and the ignored ones.
pub mod Key
pub mod Moves
use homelab_homepage.Prelude.{
  ℕ, String, ◌<>◌, Bool, Option, none, some, List, [], ◌∷◌, ◌++◌, ◌!=◌, string_eq, keep, ℤ,
}
use homelab_homepage.Go.Map.{Map, lookup, insert, erase}
use homelab_homepage.Go.Heap.{Ref, Heap, alloc}
use homelab_homepage.Go.Number.{itoa}
use homelab_homepage.Go.Text.{is_some}
use homelab_homepage.Store.Data.{IgnoredService, DiscoveredService, zero_ignored}
use homelab_homepage.Store.Discovered
use homelab_homepage.Store.Discovered.{Discovered, unindex_discovered}

pub record Ignored : Type 0 where
  pub heap : Heap IgnoredService
  pub ignored : List Ref
  pub ignored_idx : Map Ref
  pub ignored_ip_port_idx : Map (Unit {0})

abbrev pub empty : Ignored
empty = record {
  heap = record { next = 0; cell = λ _. zero_ignored };
  ignored = [];
  ignored_idx = [];
  ignored_ip_port_idx = [];
}

-- `*ig`
abbrev pub deref : Ignored → Ref → IgnoredService
deref t p = t.heap.cell p

unfoldable pub ignored_key : String → ℤ → String
ignored_key ip port = ip <> (":" <> itoa port)

unfoldable pub index_ignored : Ref → Ignored → Ignored
index_ignored p t =
    let ig = deref t p in
    record t {
      ignored_idx = insert ig.id p t.ignored_idx;
      ignored_ip_port_idx = insert (ignored_key ig.ip ig.port) tt t.ignored_ip_port_idx;
    }

unfoldable pub unindex_ignored : Ref → Ignored → Ignored
unindex_ignored p t =
    let ig = deref t p in
    record t {
      ignored_idx = erase ig.id t.ignored_idx;
      ignored_ip_port_idx = erase (ignored_key ig.ip ig.port) t.ignored_ip_port_idx;
    }

pub get_ignored : Ignored → List Ref
get_ignored t = t.ignored

unfoldable pub is_ignored : String → ℤ → Ignored → Bool
is_ignored ip port t = is_some (lookup (ignored_key ip port) t.ignored_ip_port_idx)

abbrev pub ignored_of : ℕ → DiscoveredService → IgnoredService
ignored_of now found = record {
  id = found.id;
  ip = found.ip;
  port = found.port;
  title = found.title;
  ignored_at = now;
}

append_ignored : IgnoredService → Ignored → Ignored
unfolding index_ignored
append_ignored ig t =
    index_ignored t.heap.next
      (record t { heap = alloc ig t.heap; ignored = t.ignored ++ t.heap.next ∷ [] })

-- The part of `IgnoreDiscovered` that takes the entry out of the discovered ones.
withdraw : String → Ref → Discovered → Discovered
unfolding unindex_discovered
withdraw id p d = record (unindex_discovered p d) {
  discovered = keep (λ q. (Discovered.deref d q).id != id) d.discovered;
}

-- `none` is the error "not found"; `now` is `time.Now()`.
unfoldable pub ignore_discovered : ℕ → String → Discovered → Ignored → Option (Discovered × Ignored)
unfolding withdraw append_ignored
ignore_discovered now id d t = elim (lookup id d.discovered_idx) [
  | none ↦ none
  | some p ↦ some (withdraw id p d, append_ignored (ignored_of now (Discovered.deref d p)) t)
]

release : String → Ref → Ignored → Ignored
unfolding unindex_ignored
release id p t = record (unindex_ignored p t) {
  ignored = keep (λ q. (deref t q).id != id) t.ignored;
}

-- `none` is the error "not found".
unfoldable pub unignore_service : String → Ignored → Option (IgnoredService × Ignored)
unfolding release
unignore_service id t = elim (lookup id t.ignored_idx) [
  | none ↦ none
  | some p ↦ some (deref t p, release id p t)
]
