-- ===== src/Discovery/Docker/Restart.antt =====
-- internal/discovery/docker.go: a container that stops and is created again under another id.
use homelab_homepage.Prelude.{
  ℕ, String, ◌≡◌, Bool, true, ◌||◌, ◌&&◌, not, none, some, List, arith, ◌==◌, string_eq,
  if◌then◌else◌, Option-cases, inl, inr, refl,
}
use homelab_homepage.Go.Map.{Map, lookup}
use homelab_homepage.Go.Heap.{Ref}
use homelab_homepage.Store.Data.{Service}
use homelab_homepage.Store.Services
use homelab_homepage.Store.Services.{
  Services, update_service, clear_container_id, get_service_by_container_id,
  get_service_by_container_name,
}
use homelab_homepage.Store.Services.Invariant.{clear_container_id-IsIndexed}
use homelab_homepage.Store.Services.Invariant
use homelab_homepage.Store.Services.View.{view, view-update_service}
use homelab_homepage.Store.State.{Store, IsIndexed}
use homelab_homepage.Discovery.Target.{PortSummary}
use homelab_homepage.Discovery.Container.{Outside, ContainerInfo, label, resolve_container}
use homelab_homepage.Discovery.Docker.{
  attached, reattach, upsert_by_name, upsert_resolved, upsert_container_with_labels,
}

-- What a stop clears.
abbrev pub cleared : Service → Service
cleared s = record s { container_id = "" }

module _ (t : Services) (v : Services.Invariant.IsIndexed t) (id : String) (p : Ref)
    (held : lookup id t.container_id_idx ≡ some p) where
  -- The service that holds the container loses it, and no other service changes.
  pub view-clear_container_id :
      (i : String)
      → view (clear_container_id id t) i
        ≡ (if (Services.deref t p).id == i then some (cleared (Services.deref t p)) else view t i)
  unfolding view clear_container_id
  view-clear_container_id i = elim (Option-cases (lookup i t.id_idx)) [
    | inl e ↦
        rw (held, clear_container_id)
          (ground (arith, e, v.by_container id p, v.listed (Services.deref t p).subdomain p))
    | inr (q, e) ↦
        rw (held, clear_container_id)
          (ground
            (arith, e, v.by_id i q, v.by_container id p, v.listed (Services.deref t p).subdomain p))
  ]

-- A container that is let through: it has a name, other than the program's own, and is not opted out.
abbrev pub is_wanted : String → Map String → Bool
is_wanted name labels =
    not (name == "" || name == "lantern") && not (label "lantern.enable" labels == "false")

module _ (st : Store) (v : IsIndexed st) (new_id : String) (now : ℕ) (name : String) (out : Outside)
    (ports : List PortSummary) (labels : Map String) (info : ContainerInfo)
    (wanted : is_wanted name labels ≡ true)
    (resolved : resolve_container out name ports labels ≡ some info) where
  -- A wanted container whose id is new and whose name a service from Docker has: that service gets
  -- the new id and the new address, with the scheme it had, and nothing else changes.
  pub upsert_container_with_labels_known :
      (id : String) (p : Ref)
      → lookup name st.services.container_name_idx ≡ some p
      → lookup id st.services.container_id_idx ≡ none
      → ((i : String)
          → view (upsert_container_with_labels new_id now id name out ports labels st).services i
            ≡ (if (Services.deref st.services p).id == i
                then some (attached id info.target (Services.deref st.services p))
                else view st.services i))
        × ((upsert_container_with_labels new_id now id name out ports labels st).discovered
            ≡ st.discovered)
  unfolding upsert_container_with_labels upsert_resolved upsert_by_name reattach
      get_service_by_container_id get_service_by_container_name view
  upsert_container_with_labels_known id p known fresh =
      let s = Services.deref st.services p in
      let updates =
        (view-update_service st.services v.services s.id (attached id info.target s) refl).1 in
      let live = v.services.listed s.subdomain p (v.services.by_name name p known).3 in
      (
        λ i. ground (arith, known, fresh, wanted, resolved, updates i, live),
        ground (arith, known, fresh, wanted, resolved),
      )
