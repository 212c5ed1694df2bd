-- ===== src/Store/Load/Visited.antt =====
-- internal/store/store.go: what the loop of `rebuildIndexes` over the services does to the indexes.
use homelab_homepage.Prelude.{
  String, true, some, List, [], ◌∷◌, ◌≡◌, ◌≢◌, refl, arith, ◌==◌, string_eq, nat_eq, contains, inl,
  inr, ◌⊎◌, Bool-cases,
}
use homelab_homepage.Go.Map.{Map, lookup, values, NodupKeys, lookup-insert}
use homelab_homepage.Go.Heap.{Ref}
use homelab_homepage.Store.Data.{source_docker}
use homelab_homepage.Store.Services.{Services, deref, index_service}
use homelab_homepage.Store.Load.{index_services}

-- The values of a map without repeated keys are what it gives.
pub contains-values :
    (m : Map Ref) (k : String) (p : Ref) → lookup k m ≡ some p → contains (values m) p ≡ true
unfolding lookup
contains-values [] k p e = ground arith
contains-values ((j, q) ∷ m) k p e = ground (arith, contains-values m k p, e)

pub values-key :
    (m : Map Ref) (p : Ref)
    → NodupKeys m
    → contains (values m) p ≡ true
    → (k : String) × (lookup k m ≡ some p)
unfolding lookup
values-key [] p u h = ground arith
values-key ((j, q) ∷ m) p (fresh, u) h = elim (Bool-cases (q == p)) [
  | inl e ↦ (j, ground (arith, e))
  | inr e ↦ let (k, f) = values-key m p u (ground (arith, e, h)) in (k, ground (arith, f, fresh))
]

-- What the loop leaves as it was.
pub index_services-same :
    (ps : List Ref) (t : Services)
    → ((index_services ps t).heap ≡ t.heap) × ((index_services ps t).services ≡ t.services)
unfolding index_services index_service
index_services-same [] t = (refl, refl)
index_services-same (p ∷ ps) t = index_services-same ps (index_service p t)

-- Every entry of an index was there before, or is the one of a service that the loop visits.
pub index_services-id :
    (ps : List Ref) (t : Services) (i : String) (p : Ref)
    → lookup i (index_services ps t).id_idx ≡ some p
    → (lookup i t.id_idx ≡ some p) ⊎ ((contains ps p ≡ true) × ((deref t p).id ≡ i))
unfolding index_services index_service
index_services-id [] t i p e = inl e
index_services-id (q ∷ ps) t i p e = elim (index_services-id ps (index_service q t) i p e) [
  | inl f ↦ ground (arith, f, lookup-insert i (deref t q).id q t.id_idx)
  | inr (h, named) ↦ inr (ground (arith, h), named)
]

pub index_services-container :
    (ps : List Ref) (t : Services) (c : String) (p : Ref)
    → lookup c (index_services ps t).container_id_idx ≡ some p
    → (lookup c t.container_id_idx ≡ some p)
      ⊎ ((contains ps p ≡ true) × ((deref t p).container_id ≡ c) × (c ≢ ""))
unfolding index_services index_service
index_services-container [] t c p e = inl e
index_services-container (q ∷ ps) t c p e =
    elim (index_services-container ps (index_service q t) c p e) [
      | inl f ↦ ground (arith, f, lookup-insert c (deref t q).container_id q t.container_id_idx)
      | inr (h, named, given) ↦ inr (ground (arith, h), named, given)
    ]

pub index_services-name :
    (ps : List Ref) (t : Services) (n : String) (p : Ref)
    → lookup n (index_services ps t).container_name_idx ≡ some p
    → (lookup n t.container_name_idx ≡ some p)
      ⊎ ((contains ps p ≡ true)
          × ((deref t p).container_name ≡ n)
          × (n ≢ "")
          × ((deref t p).source ≡ source_docker))
unfolding index_services index_service
index_services-name [] t n p e = inl e
index_services-name (q ∷ ps) t n p e = elim (index_services-name ps (index_service q t) n p e) [
  | inl f ↦ ground (arith, f, lookup-insert n (deref t q).container_name q t.container_name_idx)
  | inr (h, named, given, docker) ↦ inr (ground (arith, h), named, given, docker)
]

-- A service that is visited, or indexed, is found by its id if no other that is visited has it.
pub index_services-found :
    (ps : List Ref) (t : Services) (p : Ref)
    → ((q : Ref) → contains ps q ≡ true → (deref t q).id ≡ (deref t p).id → q ≡ p)
    → (contains ps p ≡ true) ⊎ (lookup (deref t p).id t.id_idx ≡ some p)
    → lookup (deref t p).id (index_services ps t).id_idx ≡ some p
unfolding index_services index_service
index_services-found [] t p only h = ground (arith, h)
index_services-found (q ∷ ps) t p only h =
    index_services-found ps (index_service q t) p (λ r m. only r (ground (arith, m)))
      (ground (arith, h, only q, lookup-insert (deref t p).id (deref t q).id q t.id_idx))

-- So is one with a container, or with a container name, that no other that is visited has.
pub index_services-held :
    (ps : List Ref) (t : Services) (p : Ref)
    → (deref t p).container_id ≢ ""
    → ((q : Ref)
        → contains ps q ≡ true
        → (deref t q).container_id ≡ (deref t p).container_id
        → q ≡ p)
    → (contains ps p ≡ true) ⊎ (lookup (deref t p).container_id t.container_id_idx ≡ some p)
    → lookup (deref t p).container_id (index_services ps t).container_id_idx ≡ some p
unfolding index_services index_service
index_services-held [] t p ne only h = ground (arith, h)
index_services-held (q ∷ ps) t p ne only h =
    index_services-held ps (index_service q t) p ne (λ r m. only r (ground (arith, m)))
      (ground (
        arith,
        h,
        ne,
        only q,
        lookup-insert (deref t p).container_id (deref t q).container_id q t.container_id_idx,
      ))

pub index_services-named :
    (ps : List Ref) (t : Services) (p : Ref)
    → (deref t p).container_name ≢ ""
    → (deref t p).source ≡ source_docker
    → ((q : Ref)
        → contains ps q ≡ true
        → (deref t q).container_name ≡ (deref t p).container_name
        → q ≡ p)
    → (contains ps p ≡ true) ⊎ (lookup (deref t p).container_name t.container_name_idx ≡ some p)
    → lookup (deref t p).container_name (index_services ps t).container_name_idx ≡ some p
unfolding index_services index_service
index_services-named [] t p ne docker only h = ground (arith, h)
index_services-named (q ∷ ps) t p ne docker only h =
    index_services-named ps (index_service q t) p ne docker (λ r m. only r (ground (arith, m)))
      (ground (
        arith,
        h,
        ne,
        docker,
        only q,
        lookup-insert (deref t p).container_name (deref t q).container_name q t.container_name_idx,
      ))
