-- ===== src/Store/Load/Rebuilt.antt =====
-- internal/store/store.go: the indexes of the services that `rebuildIndexes` makes.
use homelab_homepage.Prelude.{
  ◌<◌, String, true, some, [], ◌≡◌, ◌≢◌, arith, string_eq, nat_eq, contains, inl, ap, Option, none,
  refl,
}
use homelab_homepage.Go.Map.{lookup, values, NodupKeys, lookup-nil}
use homelab_homepage.Go.Heap.{Ref}
use homelab_homepage.Store.Data.{source_docker}
use homelab_homepage.Store.Services.{Services, deref}
use homelab_homepage.Store.Services.Invariant.{IsIndexed, IsLive}
use homelab_homepage.Store.Services.Complete.{IsComplete}
use homelab_homepage.Store.Load.{rebuild_services}
use homelab_homepage.Store.Load.Visited.{
  contains-values, values-key, index_services-same, index_services-id, index_services-container,
  index_services-name, index_services-found, index_services-held, index_services-named,
}

-- What the data on disk has to meet: each service stands under its own subdomain, and no two services
-- have one id.
pub record IsLoaded (t : Services) : Type 0 where
  pub nodup : NodupKeys t.services
  pub keyed :
      (k : String) (p : Ref)
      → lookup k t.services ≡ some p
      → ((deref t p).subdomain ≡ k) × (p < t.heap.next)
  pub own_id :
      (k l : String) (p q : Ref)
      → lookup k t.services ≡ some p
      → lookup l t.services ≡ some q
      → (deref t p).id ≡ (deref t q).id
      → p ≡ q

module _ (t : Services) where
  -- The services before the loop.
  abbrev bare : Services
  bare = record t { id_idx = []; container_id_idx = []; container_name_idx = [] }

  deref-rebuilt : (p : Ref) → deref (rebuild_services t) p ≡ deref t p
  unfolding rebuild_services
  deref-rebuilt p = ap (λ h. h.cell p) (index_services-same (values t.services) bare).0

  next-rebuilt : (rebuild_services t).heap.next ≡ t.heap.next
  unfolding rebuild_services
  next-rebuilt = ap (λ h. h.next) (index_services-same (values t.services) bare).0

  services-rebuilt : (rebuild_services t).services ≡ t.services
  unfolding rebuild_services
  services-rebuilt = (index_services-same (values t.services) bare).1

  module _ (v : IsLoaded t) where
    loaded-IsLive :
        (p : Ref) → contains (values t.services) p ≡ true → IsLive (rebuild_services t) p
    loaded-IsLive p h =
        let (k, e) = values-key t.services p v.nodup h in
        rw (services-rebuilt, deref-rebuilt p) (ground (arith, e, v.keyed k p e))

    found-rebuilt :
        (k : String) (p : Ref)
        → lookup k t.services ≡ some p
        → lookup (deref t p).id (rebuild_services t).id_idx ≡ some p
    unfolding rebuild_services
    found-rebuilt k p e =
        index_services-found (values t.services) bare p
          (λ q h same. let (l, f) = values-key t.services q v.nodup h in v.own_id l k q p f e same)
          (inl (contains-values t.services k p e))

    id-rebuilt :
        (i : String) (p : Ref)
        → lookup i (rebuild_services t).id_idx ≡ some p
        → (contains (values t.services) p ≡ true) × ((deref t p).id ≡ i)
    unfolding rebuild_services
    id-rebuilt i p e =
        ground (arith, index_services-id (values t.services) bare i p e, lookup-nil {V = Ref} i)

    container-rebuilt :
        (c : String) (p : Ref)
        → lookup c (rebuild_services t).container_id_idx ≡ some p
        → (contains (values t.services) p ≡ true) × ((deref t p).container_id ≡ c) × (c ≢ "")
    unfolding rebuild_services
    container-rebuilt c p e =
        ground
          (arith, index_services-container (values t.services) bare c p e, lookup-nil {V = Ref} c)

    name-rebuilt :
        (n : String) (p : Ref)
        → lookup n (rebuild_services t).container_name_idx ≡ some p
        → (contains (values t.services) p ≡ true)
          × ((deref t p).container_name ≡ n)
          × (n ≢ "")
          × ((deref t p).source ≡ source_docker)
    unfolding rebuild_services
    name-rebuilt n p e =
        ground (arith, index_services-name (values t.services) bare n p e, lookup-nil {V = Ref} n)

    pub rebuild_services-IsIndexed : IsIndexed (rebuild_services t)
    rebuild_services-IsIndexed = record {
      nodup = rw services-rebuilt v.nodup;
      keyed = λ k p h.
          rw (deref-rebuilt p, next-rebuilt) (v.keyed k p (ground (arith, h, services-rebuilt)));
      listed =
          λ k p h. rw (deref-rebuilt p) (found-rebuilt k p (ground (arith, h, services-rebuilt)));
      by_id = λ i p h.
          let (there, named) = id-rebuilt i p h in
          (rw (deref-rebuilt p) named, loaded-IsLive p there);
      by_container = λ c p h.
          let (there, named, given) = container-rebuilt c p h in
          (rw (deref-rebuilt p) named, given, loaded-IsLive p there);
      by_name = λ n p h.
          let (there, named, given, docker) = name-rebuilt n p h in
          (rw (deref-rebuilt p) named, given, rw (deref-rebuilt p) docker, loaded-IsLive p there);
    }

-- What is on disk of a store with consistent indexes can be loaded.
pub IsIndexed-IsLoaded : (t : Services) → IsIndexed t → IsLoaded t
IsIndexed-IsLoaded t v = record {
  nodup = v.nodup;
  keyed = v.keyed;
  own_id = λ k l p q e f same. ground (arith, v.listed k p e, v.listed l q f, same);
}

-- Two lookups are equal if the second gives what the first gives, and gives nothing more.
agrees :
    (o o' : Option Ref)
    → ((p : Ref) → o ≡ some p → o' ≡ some p)
    → ((p : Ref) → o' ≡ some p → (q : Ref) × (o ≡ some q))
    → o' ≡ o
agrees none none forth back = refl
agrees none (some p) forth back = let (q, e) = back p refl in absurd (ground (arith, e))
agrees (some p) o' forth back = forth p refl

module _ (t : Services) (v : IsIndexed t) (c : IsComplete t) where
  -- What is in the loaded map is there once more after the loop.
  container-kept :
      (k : String) (p : Ref)
      → lookup k t.services ≡ some p
      → (deref t p).container_id ≢ ""
      → lookup (deref t p).container_id (rebuild_services t).container_id_idx ≡ some p
  unfolding rebuild_services
  container-kept k p e ne =
      index_services-held (values t.services) (bare t) p ne
        (λ q h same.
          let (l, f) = values-key t.services q v.nodup h in
          ground (arith, c.held k p e ne, c.held l q f, same, ne))
        (inl (contains-values t.services k p e))

  name-kept :
      (k : String) (p : Ref)
      → lookup k t.services ≡ some p
      → (deref t p).container_name ≢ ""
      → lookup (deref t p).container_name (rebuild_services t).container_name_idx ≡ some p
  unfolding rebuild_services
  name-kept k p e ne =
      index_services-named (values t.services) (bare t) p ne
        (v.by_name (deref t p).container_name p (c.named k p e ne)).2
        (λ q h same.
          let (l, f) = values-key t.services q v.nodup h in
          ground (arith, c.named k p e ne, c.named l q f, same, ne))
        (inl (contains-values t.services k p e))

  lookup_id-rebuilt : (i : String) → lookup i (rebuild_services t).id_idx ≡ lookup i t.id_idx
  lookup_id-rebuilt i =
      agrees (lookup i t.id_idx) (lookup i (rebuild_services t).id_idx)
        (λ p e.
          let (named, live) = v.by_id i p e in
          ground (
            arith,
            found-rebuilt t (IsIndexed-IsLoaded t v) (deref t p).subdomain p live,
            named,
            e,
          ))
        (λ p e.
          let (there, named) = id-rebuilt t (IsIndexed-IsLoaded t v) i p e in
          let (k, f) = values-key t.services p v.nodup there in
          (p, ground (arith, v.listed k p f, named)))

  lookup_container-rebuilt :
      (i : String) → lookup i (rebuild_services t).container_id_idx ≡ lookup i t.container_id_idx
  lookup_container-rebuilt i =
      agrees (lookup i t.container_id_idx) (lookup i (rebuild_services t).container_id_idx)
        (λ p e.
          let (named, given, live) = v.by_container i p e in
          ground (arith, container-kept (deref t p).subdomain p live, named, given))
        (λ p e.
          let (there, named, given) = container-rebuilt t (IsIndexed-IsLoaded t v) i p e in
          let (k, f) = values-key t.services p v.nodup there in
          (p, ground (arith, c.held k p f, named, given)))

  lookup_name-rebuilt :
      (n : String)
      → lookup n (rebuild_services t).container_name_idx ≡ lookup n t.container_name_idx
  lookup_name-rebuilt n =
      agrees (lookup n t.container_name_idx) (lookup n (rebuild_services t).container_name_idx)
        (λ p e.
          let (named, given, docker, live) = v.by_name n p e in
          ground (arith, name-kept (deref t p).subdomain p live, named, given))
        (λ p e.
          let (there, named, given, docker) = name-rebuilt t (IsIndexed-IsLoaded t v) n p e in
          let (k, f) = values-key t.services p v.nodup there in
          (p, ground (arith, c.named k p f, named, given)))

  -- If the indexes of a store are consistent, and complete for containers and their names, then the
  -- indexes that are rebuilt of its services alone are consistent too, and every subdomain, every
  -- id, every container id and every container name lead to what they led to before.
  pub restart-found :
      IsIndexed (rebuild_services t)
      × ((k : String) → lookup k (rebuild_services t).services ≡ lookup k t.services)
      × ((i : String) → lookup i (rebuild_services t).id_idx ≡ lookup i t.id_idx)
      × ((i : String)
          → lookup i (rebuild_services t).container_id_idx ≡ lookup i t.container_id_idx)
      × ((n : String)
          → lookup n (rebuild_services t).container_name_idx ≡ lookup n t.container_name_idx)
  restart-found = (
    rebuild_services-IsIndexed t (IsIndexed-IsLoaded t v),
    λ k. ap (lookup k) (services-rebuilt t),
    lookup_id-rebuilt,
    lookup_container-rebuilt,
    lookup_name-rebuilt,
  )
