-- ===== src/Store/Tests.antt =====
-- The store's theorems at concrete services, entries and bookmarks.
mod Found
use mathlib.Core.Option
use homelab_homepage.Prelude.{
  ℕ, String, ◌≡◌, ◌≢◌, refl, Bool, false, true, Option, none, some, List, [], ◌∷◌, string_dec,
  string_eq, ◌⊎◌, inl, inr, pos, ℕ_discrete, arith, ◌++◌, length, contains, ltb,
}
use homelab_homepage.Go.Map.{lookup, insert, erase}
use homelab_homepage.Go.Heap.{Ref}
use homelab_homepage.Store.Data.{
  Service, DiscoveredService, Bookmark, source_docker, source_network, source_manual, zero_service,
  zero_discovered, zero_bookmark,
}
use homelab_homepage.Store.Services
use homelab_homepage.Store.Services.{
  Services, add_service, update_service, delete_service, reorder_services,
}
use homelab_homepage.Store.Services.Invariant.{IsIndexed, IsFree, add_service-IsIndexed}
use homelab_homepage.Store.Services.Complete.{
  IsComplete, IsOwn, empty-IsComplete, add_service-IsComplete, update_service-IsComplete,
}
use homelab_homepage.Store.Services.View
use homelab_homepage.Store.Services.View.{deleted, view-delete_service, view-reorder_services_at}
use homelab_homepage.Store.Load.{rebuild_services}
use homelab_homepage.Store.Load.Rebuilt.{restart-found}
use homelab_homepage.Store.Services.Conflict.{update_service_taken}

abbrev plex : Service
plex = record zero_service {
  id = "s1";
  name = "Plex";
  subdomain = "plex";
  source = source_docker;
  container_id = "c1";
  container_name = "plex";
}

abbrev wiki : Service
wiki = record zero_service { id = "s2"; name = "Wiki"; subdomain = "wiki"; source = source_manual }

abbrev one : Services
one = add_service plex Services.empty

one-IsIndexed : IsIndexed one
unfolding lookup
one-IsIndexed =
    add_service-IsIndexed plex Services.empty Services.Invariant.empty-IsIndexed refl refl

abbrev two : Services
two = add_service wiki one

two-IsIndexed : IsIndexed two
unfolding lookup insert add_service string_dec ℕ_discrete
two-IsIndexed = add_service-IsIndexed wiki one one-IsIndexed refl refl

-- The wiki gets another subdomain, that is free.
abbrev docs : Service
docs = record wiki { subdomain = "docs" }

two-IsComplete : IsComplete two
unfolding lookup insert add_service string_dec ℕ_discrete
two-IsComplete =
    add_service-IsComplete wiki one one-IsIndexed
      (add_service-IsComplete plex Services.empty Services.Invariant.empty-IsIndexed
        empty-IsComplete refl refl refl (λ ne. refl))
      refl refl refl (λ ne. absurd (ne refl))

-- The container of Plex is created again, and Plex moves.
abbrev films : Service
films = record plex { subdomain = "films"; container_id = "c2" }

films-IsFree : IsFree two "s1" "films"
unfolding lookup insert add_service string_dec ℕ_discrete
films-IsFree p q h k = ground (arith, k)

films-unheld : IsOwn two "s1" "c2" two.container_id_idx
unfolding lookup insert add_service string_dec ℕ_discrete
films-unheld p q h k = ground (arith, k)

films-unnamed : IsOwn two "s1" "plex" two.container_name_idx
unfolding lookup insert add_service string_dec ℕ_discrete
films-unnamed p q h k = ground (arith, h, k)

update_service-IsComplete_example :
    IsIndexed (update_service "s1" films two).1 × IsComplete (update_service "s1" films two).1
update_service-IsComplete_example =
    update_service-IsComplete two two-IsIndexed two-IsComplete "s1" films films-unheld films-unnamed
      (λ ne. refl) refl films-IsFree

-- The wiki takes the subdomain of Plex.
update_service_taken_example :
    ((k : String)
      → lookup k (update_service "s2" (record wiki { subdomain = "plex" }) two).1.services ≢ some 0)
    × (Services.View.view
          (update_service "s2" (record wiki { subdomain = "plex" }) two).1
          (Services.deref two 0).id
        ≡ some (Services.deref two 0))
unfolding lookup insert add_service string_dec ℕ_discrete
update_service_taken_example =
    update_service_taken two two-IsIndexed "s2" (record wiki { subdomain = "plex" }) 1 0 refl refl
      refl (λ e. ground (arith, e))

restart-found_example :
    IsIndexed (rebuild_services two)
    × ((k : String) → lookup k (rebuild_services two).services ≡ lookup k two.services)
    × ((i : String) → lookup i (rebuild_services two).id_idx ≡ lookup i two.id_idx)
    × ((i : String)
        → lookup i (rebuild_services two).container_id_idx ≡ lookup i two.container_id_idx)
    × ((n : String)
        → lookup n (rebuild_services two).container_name_idx ≡ lookup n two.container_name_idx)
restart-found_example = restart-found two two-IsIndexed two-IsComplete
