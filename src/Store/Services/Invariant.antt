-- ===== src/Store/Services/Invariant.antt =====
-- internal/store/store.go: when the indexes of the services agree with the map by subdomain, and what
-- the operations do to that.
use homelab_homepage.Prelude.{
  ℕ, suc, String, ◌<◌, ◌≡◌, ◌≢◌, none, some, List, [], ◌∷◌, arith, string_eq, nat_eq, Option-cases,
  inl, inr,
}
use homelab_homepage.Go.Map.{
  lookup, erase, NodupKeys, lookup-insert, lookup-erase, insert-NodupKeys, erase-NodupKeys,
}
use homelab_homepage.Go.Heap.{Ref}
use homelab_homepage.Store.Data.{Service, source_docker}
use homelab_homepage.Store.Services.{
  Services, empty, deref, add_service, clear_container_id, clear_found, delete_found,
  delete_service, update_service, replace_found, set_order, reorder_from, reorder_services,
}

-- `p` is the entry of the map under its own subdomain.
abbrev pub IsLive : Services → Ref → Type 0
IsLive t p = lookup (deref t p).subdomain t.services ≡ some p

pub record IsIndexed (t : Services) : Type 0 where
  pub nodup : NodupKeys t.services
  pub keyed :
      (k : String) (p : Ref)
      → lookup k t.services ≡ some p
      → ((deref t p).subdomain ≡ k) × (p < t.heap.next)
  pub listed :
      (k : String) (p : Ref)
      → lookup k t.services ≡ some p
      → lookup (deref t p).id t.id_idx ≡ some p
  pub by_id :
      (i : String) (p : Ref) → lookup i t.id_idx ≡ some p → ((deref t p).id ≡ i) × IsLive t p
  pub by_container :
      (c : String) (p : Ref)
      → lookup c t.container_id_idx ≡ some p
      → ((deref t p).container_id ≡ c) × (c ≢ "") × IsLive t p
  pub by_name :
      (n : String) (p : Ref)
      → lookup n t.container_name_idx ≡ some p
      → ((deref t p).container_name ≡ n)
        × (n ≢ "")
        × ((deref t p).source ≡ source_docker)
        × IsLive t p

module _ (svc : Service) (t : Services) (v : IsIndexed t)
    (free : lookup svc.subdomain t.services ≡ none) (fresh : lookup svc.id t.id_idx ≡ none) where
  -- From consistent indexes, the addition of a service with a subdomain and an id that are not
  -- taken leaves the map and the indexes consistent.
  pub add_service-IsIndexed : IsIndexed (add_service svc t)
  unfolding add_service
  add_service-IsIndexed = record {
    nodup = insert-NodupKeys svc.subdomain t.heap.next t.services v.nodup;
    keyed = λ k p. simp lookup-insert (λ h. ground (arith, v.keyed k p));
    listed = λ k p. simp lookup-insert (λ h. ground (arith, v.keyed k p, v.listed k p));
    by_id = λ i p.
        simp lookup-insert (λ h. ground (arith, v.by_id i p, v.keyed (deref t p).subdomain p));
    by_container = λ i p. simp lookup-insert (λ h. ground (
      arith,
      lookup-insert i svc.container_id t.heap.next t.container_id_idx,
      v.by_container i p,
      v.keyed (deref t p).subdomain p,
    ));
    by_name = λ i p. simp lookup-insert (λ h. ground (
      arith,
      lookup-insert i svc.container_name t.heap.next t.container_name_idx,
      v.by_name i p,
      v.keyed (deref t p).subdomain p,
    ));
  }

module _ (t : Services) (v : IsIndexed t) where
  clear_found-IsIndexed :
      (c : String) (p : Ref) → lookup c t.container_id_idx ≡ some p → IsIndexed (clear_found c p t)
  unfolding clear_found
  clear_found-IsIndexed c p e = record {
    nodup = v.nodup;
    keyed = λ k q h. ground (arith, v.keyed k q);
    listed = λ k q h. ground (arith, v.keyed k q, v.listed k q);
    by_id = λ i q h. ground (arith, v.by_id i q);
    by_container =
        λ i q. simp lookup-erase (λ h. ground (arith, v.by_container i q, v.by_container c p));
    by_name = λ i q h. ground (arith, v.by_name i q);
  }

  pub clear_container_id-IsIndexed : (c : String) → IsIndexed (clear_container_id c t)
  unfolding clear_container_id
  clear_container_id-IsIndexed c = elim (Option-cases (lookup c t.container_id_idx)) [
    | inl e ↦ rw (e, clear_container_id) v
    | inr (p, e) ↦ rw (e, clear_container_id) (clear_found-IsIndexed c p e)
  ]

  delete_found-IsIndexed :
      (i : String) (p : Ref) → lookup i t.id_idx ≡ some p → IsIndexed (delete_found p t)
  unfolding delete_found
  delete_found-IsIndexed i p e = record {
    nodup = erase-NodupKeys (deref t p).subdomain t.services v.nodup;
    keyed = λ k q. simp lookup-erase (λ h. ground (arith, v.keyed k q));
    listed = λ k q.
        simp lookup-erase
          (λ h. ground (arith, v.listed k q, v.keyed k q, v.by_id i p, v.by_id (deref t q).id q));
    by_id = λ j q. simp lookup-erase (λ h. ground (arith, v.by_id i p, v.by_id j q));
    by_container = λ j q. simp lookup-erase (λ h. ground (arith, v.by_id i p, v.by_container j q));
    by_name = λ j q. simp lookup-erase (λ h. ground (arith, v.by_id i p, v.by_name j q));
  }

  pub delete_service-IsIndexed : (i : String) → IsIndexed (delete_service i t).1
  unfolding delete_service
  delete_service-IsIndexed i = elim (Option-cases (lookup i t.id_idx)) [
    | inl e ↦ rw (e, delete_service) v
    | inr (p, e) ↦ rw (e, delete_service) (delete_found-IsIndexed i p e)
  ]

-- Nobody but the service `id` has the subdomain `sub`.
abbrev pub IsFree : Services → String → String → Type 0
IsFree t id sub = (p q : Ref) → lookup id t.id_idx ≡ some p → lookup sub t.services ≡ some q → q ≡ p

module _ (t : Services) (v : IsIndexed t) (id : String) (updated : Service) (same : updated.id ≡ id)
    (free : IsFree t id updated.subdomain) where
  replace_found-IsIndexed :
      (p : Ref) → lookup id t.id_idx ≡ some p → IsIndexed (replace_found p updated t)
  unfolding replace_found
  replace_found-IsIndexed p e = record {
    nodup =
        insert-NodupKeys updated.subdomain t.heap.next _
          (erase-NodupKeys (deref t p).subdomain t.services v.nodup);
    keyed = λ k q. simp (lookup-insert, lookup-erase) (λ h. ground (arith, v.keyed k q));
    listed = λ k q.
        simp (lookup-insert, lookup-erase)
          (λ h. ground (arith, v.listed k q, v.keyed k q, v.by_id id p, v.by_id (deref t q).id q));
    by_id = λ j q.
        simp (lookup-insert, lookup-erase)
          (λ h.
            ground (arith, free p q e, v.by_id id p, v.by_id j q, v.keyed (deref t q).subdomain q));
    by_container = λ j q.
        simp (lookup-insert, lookup-erase)
          (λ h. ground (
            arith,
            lookup-insert j updated.container_id t.heap.next
                (erase (deref t p).container_id t.container_id_idx),
            lookup-erase j (deref t p).container_id t.container_id_idx,
            free p q e,
            v.by_id id p,
            v.by_container j q,
            v.keyed (deref t q).subdomain q,
          ));
    by_name = λ j q.
        simp (lookup-insert, lookup-erase)
          (λ h. ground (
            arith,
            lookup-insert j updated.container_name t.heap.next
                (erase (deref t p).container_name t.container_name_idx),
            lookup-erase j (deref t p).container_name t.container_name_idx,
            free p q e,
            v.by_id id p,
            v.by_name j q,
            v.keyed (deref t q).subdomain q,
          ));
  }

  -- From consistent indexes, an update that keeps the id and whose subdomain is free, or the own
  -- one of the service, leaves the map by subdomain and the three indexes consistent, whether or
  -- not the id is known. That containers are found is in Complete.
  pub update_service-IsIndexed : IsIndexed (update_service id updated t).1
  unfolding update_service
  update_service-IsIndexed = elim (Option-cases (lookup id t.id_idx)) [
    | inl e ↦ rw (e, update_service) v
    | inr (p, e) ↦ rw (e, update_service) (replace_found-IsIndexed p e)
  ]

pub set_order-IsIndexed :
    (i : ℕ) (id : String) (t : Services) → IsIndexed t → IsIndexed (set_order i id t)
unfolding set_order
set_order-IsIndexed i id t v = record {
  nodup = ground (arith, v.nodup);
  keyed = λ k q h. ground (arith, v.keyed k q);
  listed = λ k q h. ground (arith, v.listed k q);
  by_id = λ j q h. ground (arith, v.by_id j q);
  by_container = λ j q h. ground (arith, v.by_container j q);
  by_name = λ j q h. ground (arith, v.by_name j q);
}

reorder_from-IsIndexed :
    (i : ℕ) (ids : List String) (t : Services) → IsIndexed t → IsIndexed (reorder_from i ids t)
unfolding reorder_from
reorder_from-IsIndexed i [] t v = v
reorder_from-IsIndexed i (id ∷ ids) t v =
    reorder_from-IsIndexed (suc i) ids (set_order i id t) (set_order-IsIndexed i id t v)

pub reorder_services-IsIndexed :
    (ids : List String) (t : Services) → IsIndexed t → IsIndexed (reorder_services ids t)
unfolding reorder_services
reorder_services-IsIndexed ids t v = reorder_from-IsIndexed 0 ids t v

pub empty-IsIndexed : IsIndexed empty
unfolding lookup
empty-IsIndexed = record {
  nodup = tt;
  keyed = λ k p h. cc;
  listed = λ k p h. cc;
  by_id = λ k p h. cc;
  by_container = λ k p h. cc;
  by_name = λ k p h. cc;
}
