-- ===== src/Store/Discovered/Invariant.antt =====
-- internal/store/store.go: when the indexes of the discovered services agree with the list, and what
-- the operations do to that.
use homelab_homepage.Prelude.{
  String, ◌<◌, ◌≡◌, ◌≢◌, Bool, true, false, not, Option, none, some, arith, ◌==◌, string_eq, nat_eq,
  Option-cases, Bool-cases, inl, inr, refl, contains, contains-append, contains-keep, find, keep,
}
use homelab_homepage.Prelude.{int_eq}
use homelab_homepage.Go.Map.{lookup, lookup-insert, lookup-erase}
use homelab_homepage.Go.Heap.{Ref, write}
use homelab_homepage.Store.Data.{DiscoveredService}
use homelab_homepage.Store.Discovered.{
  Discovered, deref, append_discovered, add_discovered, is_duplicate, present, remove_discovered,
  remove_discovered_by_container_id, unindex_discovered, is_known, refresh,
  upsert_network_discovered, update_discovered_icon,
}

pub record IsIndexed (t : Discovered) : Type 0 where
  pub listed :
      (p : Ref)
      → contains t.discovered p ≡ true
      → (lookup (deref t p).id t.discovered_idx ≡ some p) × (p < t.heap.next)
  pub by_id :
      (i : String) (p : Ref)
      → lookup i t.discovered_idx ≡ some p
      → ((deref t p).id ≡ i) × (contains t.discovered p ≡ true)
  pub held :
      (p : Ref)
      → contains t.discovered p ≡ true
      → (deref t p).container_id ≢ ""
      → lookup (deref t p).container_id t.discovered_container_idx ≡ some p
  pub by_container :
      (c : String) (p : Ref)
      → lookup c t.discovered_container_idx ≡ some p
      → ((deref t p).container_id ≡ c) × (c ≢ "") × (contains t.discovered p ≡ true)

module _ (d : DiscoveredService) (t : Discovered) (v : IsIndexed t)
    (fresh : lookup d.id t.discovered_idx ≡ none)
    (apart : d.container_id ≢ "" → lookup d.container_id t.discovered_container_idx ≡ none) where
  append_discovered-IsIndexed : IsIndexed (append_discovered d t)
  unfolding append_discovered
  append_discovered-IsIndexed = record {
    listed = λ p. simp (lookup-insert, contains-append) (λ h. ground (arith, v.listed p));
    by_id =
        λ i p. simp (lookup-insert, contains-append) (λ h. ground (arith, v.by_id i p, v.listed p));
    held = λ p. simp contains-append (λ h k. ground (
      arith,
      apart,
      v.held p,
      v.listed p,
      lookup-insert (deref t p).container_id d.container_id t.heap.next t.discovered_container_idx,
      lookup-insert d.container_id d.container_id t.heap.next t.discovered_container_idx,
    ));
    by_container = λ i p. simp contains-append (λ h. ground (
      arith,
      apart,
      v.by_container i p,
      v.listed p,
      lookup-insert i d.container_id t.heap.next t.discovered_container_idx,
    ));
  }

not_present : (o : Option Ref) → present o ≡ false → o ≡ none
not_present o h = ground arith

pub add_discovered-IsIndexed :
    (d : DiscoveredService) (t : Discovered)
    → IsIndexed t
    → lookup d.id t.discovered_idx ≡ none
    → IsIndexed (add_discovered d t)
unfolding add_discovered
add_discovered-IsIndexed d t v fresh = elim (Bool-cases (is_duplicate d t)) [
  | inl e ↦ rw e v
  | inr e ↦ rw e (append_discovered-IsIndexed d t v fresh (λ ne. not_present _ (ground arith)))
]

module _ (t : Discovered) (v : IsIndexed t) where
  removed_one :
      (p : Ref)
      → contains t.discovered p ≡ true
      → (gone : Ref → Bool) → ((q : Ref) → contains t.discovered q ≡ true → gone q ≡ (q == p))
      → IsIndexed
          (record (unindex_discovered p t) { discovered = keep (λ q. not (gone q)) t.discovered })
  unfolding unindex_discovered
  removed_one p m gone only = record {
    listed = λ q.
        simp (contains-keep, lookup-erase) (λ h. ground (arith, only q, v.listed q, v.listed p));
    by_id = λ i q.
        simp (contains-keep, lookup-erase) (λ h. ground (arith, only q, v.by_id i q, v.listed p));
    held = λ q. simp contains-keep (λ h k. ground (
      arith,
      only q,
      v.held p,
      v.held q,
      lookup-erase (deref t q).container_id (deref t p).container_id t.discovered_container_idx,
    ));
    by_container = λ c q. simp contains-keep (λ h. ground (
      arith,
      only q,
      v.by_container c q,
      lookup-erase c (deref t p).container_id t.discovered_container_idx,
    ));
  }

  removed_none :
      (gone : Ref → Bool)
      → ((q : Ref) → contains t.discovered q ≡ true → gone q ≡ false)
      → IsIndexed (record t { discovered = keep (λ q. not (gone q)) t.discovered })
  removed_none gone only = record {
    listed = λ q. simp contains-keep (λ h. ground (arith, v.listed q));
    by_id = λ i q. simp contains-keep (λ h. ground (arith, only q, v.by_id i q));
    held = λ q. simp contains-keep (λ h k. ground (arith, v.held q));
    by_container = λ c q. simp contains-keep (λ h. ground (arith, only q, v.by_container c q));
  }

pub remove_discovered-IsIndexed :
    (id : String) (t : Discovered) → IsIndexed t → IsIndexed (remove_discovered id t)
unfolding remove_discovered
remove_discovered-IsIndexed id t v = elim (Option-cases (lookup id t.discovered_idx)) [
  | inl e ↦
      rw (e, remove_discovered)
        (removed_none t v (λ q. (deref t q).id == id) (λ q h. ground (arith, v.listed q)))
  | inr (p, e) ↦
      rw (e, remove_discovered)
        (removed_one t v p (ground (arith, v.by_id id p)) (λ q. (deref t q).id == id)
          (λ q h. ground (arith, v.listed q, v.by_id id p)))
]

-- A stop event names its container, so `cid` is not empty.
pub remove_discovered_by_container_id-IsIndexed :
    (cid : String) (t : Discovered)
    → cid ≢ ""
    → IsIndexed t
    → IsIndexed (remove_discovered_by_container_id cid t)
unfolding remove_discovered_by_container_id
remove_discovered_by_container_id-IsIndexed cid t ne v =
    elim (Option-cases (lookup cid t.discovered_container_idx)) [
      | inl e ↦
          rw (e, remove_discovered_by_container_id)
            (removed_none t v (λ q. (deref t q).container_id == cid)
              (λ q h. ground (arith, ne, v.held q)))
      | inr (p, e) ↦
          rw (e, remove_discovered_by_container_id)
            (removed_one t v p (ground (arith, v.by_container cid p))
              (λ q. (deref t q).container_id == cid)
              (λ q h. ground (arith, ne, v.held q, v.by_container cid p)))
    ]

-- A write that keeps the fields that the indexes go by.
rewritten-IsIndexed :
    (t : Discovered) (p : Ref) (d : DiscoveredService)
    → d.id ≡ (deref t p).id
    → d.container_id ≡ (deref t p).container_id
    → IsIndexed t
    → IsIndexed (record t { heap = write p d t.heap })
rewritten-IsIndexed t p d same_id same_cid v = record {
  listed = λ q h. ground (arith, v.listed q);
  by_id = λ i q h. ground (arith, v.by_id i q);
  held = λ q h k. ground (arith, v.held q);
  by_container = λ c q h. ground (arith, v.by_container c q);
}

pub upsert_network_discovered-IsIndexed :
    (svc : DiscoveredService) (t : Discovered)
    → IsIndexed t
    → lookup svc.id t.discovered_idx ≡ none
    → svc.container_id ≡ ""
    → IsIndexed (upsert_network_discovered svc t).1
unfolding upsert_network_discovered
upsert_network_discovered-IsIndexed svc t v fresh bare =
    elim (Option-cases (find (is_known t svc) t.discovered)) [
      | inl e ↦
          rw (e, upsert_network_discovered)
            (append_discovered-IsIndexed svc t v fresh (λ ne. absurd (ne bare)))
      | inr (p, e) ↦
          rw (e, upsert_network_discovered)
            (rewritten-IsIndexed t p (refresh svc (deref t p)) refl refl v)
    ]

pub update_discovered_icon-IsIndexed :
    (id icon : String) (t : Discovered) → IsIndexed t → IsIndexed (update_discovered_icon id icon t)
unfolding update_discovered_icon
update_discovered_icon-IsIndexed id icon t v = elim (Option-cases (lookup id t.discovered_idx)) [
  | inl e ↦ rw (e, update_discovered_icon) v
  | inr (p, e) ↦
      rw (e, update_discovered_icon)
        (rewritten-IsIndexed t p (record (deref t p) { icon = icon }) refl refl v)
]
