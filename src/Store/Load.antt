-- ===== src/Store/Load.antt =====
-- internal/store/store.go: `rebuildIndexes`, after the data has been read. `encoding/json`, which
-- reads it, is a parameter: what it gave stands in the heaps, the map and the lists already.
pub mod Rebuilt
pub mod Visited
use homelab_homepage.Prelude.{List, [], ◌∷◌}
use homelab_homepage.Go.Map.{values}
use homelab_homepage.Go.Heap.{Ref}
use homelab_homepage.Store.Services.{Services, index_service}
use homelab_homepage.Store.Bookmarks.{Bookmarks, index_bookmark}
use homelab_homepage.Store.Discovered.{Discovered, index_discovered}
use homelab_homepage.Store.Ignored.{Ignored, index_ignored}
use homelab_homepage.Store.State.{Store}

unfoldable pub index_services : List Ref → Services → Services
index_services [] t = t
index_services (p ∷ ps) t = index_services ps (index_service p t)

unfoldable pub rebuild_services : Services → Services
rebuild_services t =
    index_services (values t.services)
      (record t { id_idx = []; container_id_idx = []; container_name_idx = [] })

unfoldable pub index_bookmarks : List Ref → Bookmarks → Bookmarks
index_bookmarks [] t = t
index_bookmarks (p ∷ ps) t = index_bookmarks ps (index_bookmark p t)

unfoldable pub rebuild_bookmarks : Bookmarks → Bookmarks
rebuild_bookmarks t = index_bookmarks t.bookmarks (record t { bookmark_idx = [] })

unfoldable pub index_all_discovered : List Ref → Discovered → Discovered
index_all_discovered [] t = t
index_all_discovered (p ∷ ps) t = index_all_discovered ps (index_discovered p t)

unfoldable pub rebuild_discovered : Discovered → Discovered
rebuild_discovered t =
    index_all_discovered t.discovered
      (record t { discovered_idx = []; discovered_container_idx = [] })

unfoldable pub index_all_ignored : List Ref → Ignored → Ignored
index_all_ignored [] t = t
index_all_ignored (p ∷ ps) t = index_all_ignored ps (index_ignored p t)

unfoldable pub rebuild_ignored : Ignored → Ignored
rebuild_ignored t =
    index_all_ignored t.ignored (record t { ignored_idx = []; ignored_ip_port_idx = [] })

unfoldable pub rebuild_indexes : Store → Bookmarks → Store × Bookmarks
rebuild_indexes st b = (
  record {
    services = rebuild_services st.services;
    discovered = rebuild_discovered st.discovered;
    ignored = rebuild_ignored st.ignored;
  },
  rebuild_bookmarks b,
)
