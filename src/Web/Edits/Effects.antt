-- ===== src/Web/Edits/Effects.antt =====
-- internal/web/handle_services.go: what the handlers of edits leave in the store.
use homelab_homepage.Prelude.{
  String, ◌≡◌, ◌≢◌, Option, none, some, arith, ◌==◌, string_eq, if◌then◌else◌, Option-cases, inl,
  inr, refl, ◌&&◌,
}
use homelab_homepage.Go.Map.{lookup, lookup-erase}
use homelab_homepage.Go.Text.{is_some}
use homelab_homepage.Store.Icons.{safe_icon_path}
use homelab_homepage.Go.Heap.{Ref}
use homelab_homepage.Util.Subdomain.{sanitise_subdomain}
use homelab_homepage.Store.Services
use homelab_homepage.Store.Services.{Services, get_service_by_id}
use homelab_homepage.Store.Services.Invariant.{IsFree, delete_service-IsIndexed}
use homelab_homepage.Store.Services.View.{view, view-delete_service}
use homelab_homepage.Store.Discovered.Invariant.{add_discovered-IsIndexed}
use homelab_homepage.Store.State.{IsIndexed}
use homelab_homepage.Cf.Api.{Api}
use homelab_homepage.Web.Server.{Server, Setup, Draw}
use homelab_homepage.Web.Edits.{
  update_request, new_subdomain, updated_service, update_of, update_service, rediscovered,
  delete_of, delete_service,
}

-- The subdomain that the request asks for is not another service's.
abbrev pub AsksFree : (String → String) → Option (String → String) → String → Services → Type 0
AsksFree sanitise none id t = Unit
AsksFree sanitise (some form_value) id t =
    (p : Ref)
    → lookup id t.id_idx ≡ some p
    → IsFree t id (new_subdomain sanitise (update_request form_value) (Services.deref t p))

module _ (api : Api) (setup : Setup) (id : String) (s : Server api) (v : IsIndexed s.store) where
  update_of-IsIndexed :
      (form : Option (String → String)) (o : Option Ref)
      → lookup id s.store.services.id_idx ≡ o
      → AsksFree (sanitise_subdomain setup.lower) form id s.store.services
      → IsIndexed (update_of api setup id form o s).1.store
  unfolding updated_service
  update_of-IsIndexed form none e free = v
  update_of-IsIndexed none (some p) e free = v
  update_of-IsIndexed (some form_value) (some p) e free = record {
    services =
        Services.Invariant.update_service-IsIndexed s.store.services v.services id _
          (v.services.by_id id p e).0 (free p e);
    discovered = v.discovered;
    ignored = v.ignored;
  }

  -- An update leaves the indexes in order if the subdomain that it asks for is free. The handler
  -- does not test that.
  pub update_service-IsIndexed :
      (form : Option (String → String))
      → AsksFree (sanitise_subdomain setup.lower) form id s.store.services
      → IsIndexed (update_service api setup id form s).1.store
  unfolding update_service get_service_by_id
  update_service-IsIndexed form free = update_of-IsIndexed form _ refl free

  delete_of-IsIndexed :
      (draw : Draw) (o : Option Ref)
      → lookup draw.new_id s.store.discovered.discovered_idx ≡ none
      → IsIndexed (delete_of api setup draw id o s).store
  delete_of-IsIndexed draw none fresh = v
  delete_of-IsIndexed draw (some p) fresh = record {
    services = delete_service-IsIndexed s.store.services v.services id;
    discovered = ground (
      arith,
      v.discovered,
      add_discovered-IsIndexed (rediscovered draw (Services.deref s.store.services p))
          s.store.discovered v.discovered fresh,
    );
    ignored = v.ignored;
  }

  -- From consistent indexes and with a fresh new id, the deletion of a service leaves the indexes
  -- consistent, takes the service with that id away and no other, and, where there was one,
  -- removes its icon file exactly if the id has a safe path and the file can be removed.
  pub delete_service_lem :
      (draw : Draw)
      → lookup draw.new_id s.store.discovered.discovered_idx ≡ none
      → IsIndexed (delete_service api setup draw id s).1.store
        × ((i : String)
            → view (delete_service api setup draw id s).1.store.services i
              ≡ (if id == i then none else view s.store.services i))
        × (view s.store.services id ≢ none
            → lookup id (delete_service api setup draw id s).1.icons ≡ (
                if is_some (safe_icon_path setup.icon_dir id) && draw.removable
                then none
                else lookup id s.icons))
  unfolding delete_service get_service_by_id view
  delete_service_lem draw fresh =
      let gone = (view-delete_service s.store.services v.services id).1 in
      elim (Option-cases (lookup id s.store.services.id_idx)) [
        | inl e ↦ rw (e, delete_of) (v, (λ i. ground (arith, e)), ground (arith, e))
        | inr (p, e) ↦
            rw (e, delete_of)
              (
                delete_of-IsIndexed draw (some p) fresh,
                gone,
                ground (arith, lookup-erase id id s.icons),
              )
      ]
