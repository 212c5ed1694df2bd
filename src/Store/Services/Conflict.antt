-- ===== src/Store/Services/Conflict.antt =====
-- internal/store/store.go: `UpdateService` with a subdomain that another service has.
use homelab_homepage.Prelude.{String, ◌≡◌, ◌≢◌, some, arith, string_eq, nat_eq}
use homelab_homepage.Go.Map.{lookup, lookup-insert, lookup-erase}
use homelab_homepage.Go.Heap.{Ref}
use homelab_homepage.Store.Data.{Service}
use homelab_homepage.Store.Services.{Services, deref, update_service, replace_found}
use homelab_homepage.Store.Services.Invariant.{IsIndexed}
use homelab_homepage.Store.Services.View.{view}

-- With consistent indexes, an update of one service with a subdomain that another has takes the
-- other out of the map by subdomain, so that no subdomain leads to it, while its id still finds it
-- unchanged.
pub update_service_taken :
    (t : Services)
    → IsIndexed t
    → (id : String) (updated : Service) (p q : Ref) → lookup id t.id_idx ≡ some p
    → updated.id ≡ id
    → lookup updated.subdomain t.services ≡ some q
    → q ≢ p
    → ((k : String) → lookup k (update_service id updated t).1.services ≢ some q)
      × (view (update_service id updated t).1 (deref t q).id ≡ some (deref t q))
unfolding update_service replace_found view
update_service_taken t v id updated p q e same taken differ =
    rw (e, update_service)
      (
        (λ k.
            simp (lookup-insert, lookup-erase)
              (ground (arith, v.keyed k q, v.keyed updated.subdomain q))),
        simp (lookup-insert, lookup-erase)
            (ground (
              arith,
              differ,
              taken,
              v.by_id id p,
              v.listed updated.subdomain q,
              v.keyed updated.subdomain q,
            )),
      )
