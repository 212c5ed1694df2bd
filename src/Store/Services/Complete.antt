-- ===== src/Store/Services/Complete.antt =====
-- internal/store/store.go: when the index by container id and the index by container name have all
-- the services that are held by a container, and what the operations do to that.
use homelab_homepage.Prelude.{
  String, ◌≡◌, ◌≢◌, none, some, arith, string_eq, nat_eq, Option-cases, inl, inr,
}
use homelab_homepage.Go.Map.{Map, lookup, erase, lookup-insert, lookup-erase}
use homelab_homepage.Go.Heap.{Ref}
use homelab_homepage.Store.Data.{Service, source_docker}
use homelab_homepage.Store.Services.{
  Services, empty, deref, add_service, clear_container_id, clear_found, delete_found,
  delete_service, update_service, replace_found,
}
use homelab_homepage.Store.Services.Invariant.{IsIndexed, IsFree, update_service-IsIndexed}

-- Each service of the map that has a container is the one that the index by container id gives for
-- it, and each one that has a container name is the one that the index by name gives.
pub record IsComplete (t : Services) : Type 0 where
  pub held :
      (k : String) (p : Ref)
      → lookup k t.services ≡ some p
      → (deref t p).container_id ≢ ""
      → lookup (deref t p).container_id t.container_id_idx ≡ some p
  pub named :
      (k : String) (p : Ref)
      → lookup k t.services ≡ some p
      → (deref t p).container_name ≢ ""
      → lookup (deref t p).container_name t.container_name_idx ≡ some p

module _ (svc : Service) (t : Services) (v : IsIndexed t) (c : IsComplete t)
    (free : lookup svc.subdomain t.services ≡ none)
    (unheld : lookup svc.container_id t.container_id_idx ≡ none)
    (unnamed : lookup svc.container_name t.container_name_idx ≡ none)
    (docker : svc.container_name ≢ "" → svc.source ≡ source_docker) where
  pub add_service-IsComplete : IsComplete (add_service svc t)
  unfolding add_service
  add_service-IsComplete = record {
    held = λ k p. simp lookup-insert (λ h ne. ground (
      arith,
      v.keyed k p,
      c.held k p,
      unheld,
      lookup-insert svc.container_id svc.container_id t.heap.next t.container_id_idx,
      lookup-insert (deref t p).container_id svc.container_id t.heap.next t.container_id_idx,
    ));
    named = λ k p. simp lookup-insert (λ h ne. ground (
      arith,
      v.keyed k p,
      c.named k p,
      unnamed,
      docker,
      lookup-insert svc.container_name svc.container_name t.heap.next t.container_name_idx,
      lookup-insert (deref t p).container_name svc.container_name t.heap.next t.container_name_idx,
    ));
  }

-- Nobody but the service `id` stands in the index under `key`.
abbrev pub IsOwn : Services → String → String → Map Ref → Type 0
IsOwn t id key idx = (p q : Ref) → lookup id t.id_idx ≡ some p → lookup key idx ≡ some q → q ≡ p

module _ (t : Services) (v : IsIndexed t) (c : IsComplete t) (id : String) (updated : Service)
    (unheld : IsOwn t id updated.container_id t.container_id_idx)
    (unnamed : IsOwn t id updated.container_name t.container_name_idx)
    (docker : updated.container_name ≢ "" → updated.source ≡ source_docker) where
  replace_found-IsComplete :
      (p : Ref) → lookup id t.id_idx ≡ some p → IsComplete (replace_found p updated t)
  unfolding replace_found
  replace_found-IsComplete p e =
      let old = deref t p in
      let live = (v.by_id id p e).1 in
      let without = erase old.container_id t.container_id_idx in
      let without_name = erase old.container_name t.container_name_idx in
      record {
        held = λ k q.
            simp (lookup-insert, lookup-erase)
              (λ h ne. ground (
                arith,
                v.keyed k q,
                c.held k q,
                c.held old.subdomain p live,
                unheld p q e,
                lookup-insert updated.container_id updated.container_id t.heap.next without,
                lookup-insert (deref t q).container_id updated.container_id t.heap.next without,
                lookup-erase (deref t q).container_id old.container_id t.container_id_idx,
              ));
        named = λ k q.
            simp (lookup-insert, lookup-erase)
              (λ h ne. ground (
                arith,
                v.keyed k q,
                c.named k q,
                c.named old.subdomain p live,
                unnamed p q e,
                docker,
                lookup-insert updated.container_name updated.container_name t.heap.next
                    without_name,
                lookup-insert (deref t q).container_name updated.container_name t.heap.next
                    without_name,
                lookup-erase (deref t q).container_name old.container_name t.container_name_idx,
              ));
      }

  -- From indexes that are consistent and complete, an update that keeps the id, whose subdomain,
  -- container id and container name are free or the service's own, and which has a container name
  -- only if it is from Docker, leaves them consistent and complete, whether or not the id is
  -- known: every entry of the three indexes is of a service of the map with that id, container id
  -- or container name, and every service of the map stands in the index by id and, where it has a
  -- container id or a container name, in those indexes.
  pub update_service-IsComplete :
      updated.id ≡ id
      → IsFree t id updated.subdomain
      → IsIndexed (update_service id updated t).1 × IsComplete (update_service id updated t).1
  unfolding update_service
  update_service-IsComplete same free = (
    update_service-IsIndexed t v id updated same free,
    elim (Option-cases (lookup id t.id_idx)) [
      | inl e ↦ rw (e, update_service) c
      | inr (p, e) ↦ rw (e, update_service) (replace_found-IsComplete p e)
    ],
  )

module _ (t : Services) (v : IsIndexed t) (c : IsComplete t) where
  clear_found-IsComplete :
      (cid : String) (p : Ref)
      → lookup cid t.container_id_idx ≡ some p
      → IsComplete (clear_found cid p t)
  unfolding clear_found
  clear_found-IsComplete cid p e = record {
    held = λ k q h ne. ground (
      arith,
      c.held k q h,
      v.by_container cid p e,
      v.by_container cid q,
      lookup-erase (deref t q).container_id cid t.container_id_idx,
    );
    named = λ k q h ne. ground (arith, c.named k q h);
  }

  -- A container that stops leaves the other services in the indexes.
  pub clear_container_id-IsComplete : (cid : String) → IsComplete (clear_container_id cid t)
  unfolding clear_container_id
  clear_container_id-IsComplete cid = elim (Option-cases (lookup cid t.container_id_idx)) [
    | inl e ↦ rw (e, clear_container_id) c
    | inr (p, e) ↦ rw (e, clear_container_id) (clear_found-IsComplete cid p e)
  ]

  delete_found-IsComplete :
      (i : String) (p : Ref) → lookup i t.id_idx ≡ some p → IsComplete (delete_found p t)
  unfolding delete_found
  delete_found-IsComplete i p e =
      let live = (v.by_id i p e).1 in
      record {
        held = λ k q.
            simp lookup-erase (λ h ne.
              ground (arith, v.keyed k q, c.held k q, c.held (deref t p).subdomain p live));
        named = λ k q. simp lookup-erase (λ h ne.
            ground (arith, v.keyed k q, c.named k q, c.named (deref t p).subdomain p live));
      }

  pub delete_service-IsComplete : (i : String) → IsComplete (delete_service i t).1
  unfolding delete_service
  delete_service-IsComplete i = elim (Option-cases (lookup i t.id_idx)) [
    | inl e ↦ rw (e, delete_service) c
    | inr (p, e) ↦ rw (e, delete_service) (delete_found-IsComplete i p e)
  ]

pub empty-IsComplete : IsComplete empty
unfolding lookup
empty-IsComplete = record { held = λ k p h. cc; named = λ k p h. cc }
