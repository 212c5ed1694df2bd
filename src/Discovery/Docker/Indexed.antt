-- ===== src/Discovery/Docker/Indexed.antt =====
-- internal/discovery/docker.go: what containers that start and stop do to the indexes of the store,
-- and to services that were not made from Docker.
use homelab_homepage.Prelude.{
  ℕ, String, ◌≡◌, ◌≢◌, Option, none, some, List, arith, ◌==◌, string_eq, Option-cases, Bool-cases,
  inl, inr, refl,
}
use homelab_homepage.Go.Map.{Map, lookup}
use homelab_homepage.Go.Heap.{Ref}
use homelab_homepage.Store.Data.{Service, source_docker}
use homelab_homepage.Store.Services
use homelab_homepage.Store.Services.{
  Services, update_service, clear_container_id, get_service_by_container_id,
  get_service_by_container_name, get_service_by_subdomain,
}
use homelab_homepage.Store.Services.Invariant.{
  IsLive, update_service-IsIndexed, clear_container_id-IsIndexed,
}
use homelab_homepage.Store.Services.View.{view, view-update_service}
use homelab_homepage.Store.Discovered.{present, get_discovered_by_container_id}
use homelab_homepage.Store.Discovered.Invariant.{
  add_discovered-IsIndexed, remove_discovered_by_container_id-IsIndexed,
}
use homelab_homepage.Store.State.{Store, IsIndexed}
use homelab_homepage.Discovery.Target.{PortSummary}
use homelab_homepage.Discovery.Container.{Outside, ContainerInfo, resolve_container}
use homelab_homepage.Discovery.Docker.{
  attached, attached_as, discovered_of, reattach, add_docker_discovered, upsert_by_subdomain,
  upsert_by_name, upsert_resolved, upsert_container_with_labels, detach_container,
}

-- An update of a live service that keeps its id and its subdomain.
reattach-IsIndexed :
    (p : Ref) (updated : Service) (st : Store)
    → IsIndexed st
    → IsLive st.services p
    → updated.id ≡ (Services.deref st.services p).id
    → updated.subdomain ≡ (Services.deref st.services p).subdomain
    → IsIndexed (reattach updated st)
unfolding reattach
reattach-IsIndexed p updated st v live same_id same_sub = record {
  services = update_service-IsIndexed st.services v.services updated.id updated refl (λ q r.
      ground (
        arith,
        live,
        same_id,
        same_sub,
        v.services.listed (Services.deref st.services p).subdomain p,
      ));
  discovered = v.discovered;
  ignored = v.ignored;
}

module _ (new_id : String) (now : ℕ) (id name : String) (st : Store) (v : IsIndexed st)
    (fresh : lookup new_id st.discovered.discovered_idx ≡ none) where
  add_docker_discovered-IsIndexed :
      (info : ContainerInfo) → IsIndexed (add_docker_discovered new_id now id info st)
  unfolding add_docker_discovered
  add_docker_discovered-IsIndexed info =
      elim (Bool-cases (present (get_discovered_by_container_id id st.discovered))) [
        | inl e ↦ rw e v
        | inr e ↦ rw e (record {
          services = v.services;
          discovered =
              add_discovered-IsIndexed (discovered_of new_id now id info) st.discovered v.discovered
                fresh;
          ignored = v.ignored;
        })
      ]

  upsert_by_subdomain-IsIndexed :
      (info : ContainerInfo) (o : Option Ref)
      → get_service_by_subdomain info.subdomain st.services ≡ o
      → IsIndexed (upsert_by_subdomain new_id now id name info o st)
  unfolding upsert_by_subdomain get_service_by_subdomain
  upsert_by_subdomain-IsIndexed info none e = add_docker_discovered-IsIndexed info
  upsert_by_subdomain-IsIndexed info (some p) e =
      let existing = Services.deref st.services p in
      elim (Bool-cases (existing.source == source_docker)) [
        | inl docker ↦ rw docker (
            reattach-IsIndexed p (attached_as id name info.target existing) st v
              (ground (arith, v.services.keyed info.subdomain p)) refl refl)
        | inr other ↦ rw other (add_docker_discovered-IsIndexed info)
      ]

  upsert_by_name-IsIndexed :
      (info : ContainerInfo) (o : Option Ref)
      → get_service_by_container_name name st.services ≡ o
      → IsIndexed (upsert_by_name new_id now id name info o st)
  unfolding upsert_by_name get_service_by_container_name
  upsert_by_name-IsIndexed info none e = upsert_by_subdomain-IsIndexed info _ refl
  upsert_by_name-IsIndexed info (some p) e =
      reattach-IsIndexed p (attached id info.target (Services.deref st.services p)) st v
        (ground (arith, v.services.by_name name p)) refl refl

  upsert_resolved-IsIndexed :
      (o : Option ContainerInfo) → IsIndexed (upsert_resolved new_id now id name o st)
  unfolding upsert_resolved
  upsert_resolved-IsIndexed none = v
  upsert_resolved-IsIndexed (some info) = upsert_by_name-IsIndexed info _ refl

  -- A container that starts leaves all indexes of the store consistent if they were, whatever its
  -- labels and ports are, provided that the id drawn for a new entry is not taken.
  pub upsert_container_with_labels-IsIndexed :
      (out : Outside) (ports : List PortSummary) (labels : Map String)
      → IsIndexed (upsert_container_with_labels new_id now id name out ports labels st)
  unfolding upsert_container_with_labels
  upsert_container_with_labels-IsIndexed out ports labels =
      ground (arith, v, upsert_resolved-IsIndexed (resolve_container out name ports labels))

-- So does a container that stops.
pub detach_container-IsIndexed :
    (id : String) (st : Store) → id ≢ "" → IsIndexed st → IsIndexed (detach_container id st)
unfolding detach_container
detach_container-IsIndexed id st ne v = record {
  services = clear_container_id-IsIndexed st.services v.services id;
  discovered = remove_discovered_by_container_id-IsIndexed id st.discovered ne v.discovered;
  ignored = v.ignored;
}

-- An update of a service from Docker shows on no service of another source.
reattach-other :
    (p : Ref) (updated : Service) (st : Store)
    → IsIndexed st
    → IsLive st.services p
    → updated.id ≡ (Services.deref st.services p).id
    → (Services.deref st.services p).source ≡ source_docker
    → (i : String) (s : Service) → view st.services i ≡ some s
    → s.source ≢ source_docker
    → view (reattach updated st).services i ≡ some s
unfolding reattach view
reattach-other p updated st v live same docker i s e other = ground (
  arith,
  e,
  other,
  docker,
  same,
  (view-update_service st.services v.services updated.id updated refl).1 i,
  v.services.listed (Services.deref st.services p).subdomain p live,
)

module _ (new_id : String) (now : ℕ) (id name : String) (st : Store) (v : IsIndexed st) (i : String)
    (s : Service) (e : view st.services i ≡ some s) (other : s.source ≢ source_docker) where
  add_docker_discovered-other :
      (info : ContainerInfo) → (add_docker_discovered new_id now id info st).services ≡ st.services
  unfolding add_docker_discovered
  add_docker_discovered-other info = ground arith

  upsert_by_subdomain-other :
      (info : ContainerInfo) (o : Option Ref)
      → get_service_by_subdomain info.subdomain st.services ≡ o
      → view (upsert_by_subdomain new_id now id name info o st).services i ≡ some s
  unfolding upsert_by_subdomain get_service_by_subdomain
  upsert_by_subdomain-other info none f = rw (add_docker_discovered-other info) e
  upsert_by_subdomain-other info (some p) f =
      let existing = Services.deref st.services p in
      elim (Bool-cases (existing.source == source_docker)) [
        | inl docker ↦ rw docker (
            reattach-other p (attached_as id name info.target existing) st v
              (ground (arith, v.services.keyed info.subdomain p)) refl (ground arith) i s e other)
        | inr differs ↦ rw (differs, add_docker_discovered-other info) e
      ]

  upsert_resolved-other :
      (o : Option ContainerInfo)
      → view (upsert_resolved new_id now id name o st).services i ≡ some s
  unfolding upsert_resolved upsert_by_name get_service_by_container_name
  upsert_resolved-other none = e
  upsert_resolved-other (some info) =
      elim (Option-cases (lookup name st.services.container_name_idx)) [
        | inl absent ↦ rw (absent, upsert_by_name) (upsert_by_subdomain-other info _ refl)
        | inr (p, found) ↦
            rw (found, upsert_by_name)
              (reattach-other p (attached id info.target (Services.deref st.services p)) st v
                (v.services.by_name name p found).3 refl (v.services.by_name name p found).2 i s e
                other)
      ]

  -- With consistent indexes, a container that starts changes no service whose source is not
  -- Docker, even one that has its subdomain.
  pub upsert_container_with_labels_other :
      (out : Outside) (ports : List PortSummary) (labels : Map String)
      → view (upsert_container_with_labels new_id now id name out ports labels st).services i
        ≡ some s
  unfolding upsert_container_with_labels
  upsert_container_with_labels_other out ports labels =
      ground (arith, e, upsert_resolved-other (resolve_container out name ports labels))
