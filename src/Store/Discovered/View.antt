-- ===== src/Store/Discovered/View.antt =====
-- The discovered services as clients see them: a partial function from ids to entries.
use mathlib.Core.Option
use homelab_homepage.Prelude.{
  String, ◌<◌, ◌≡◌, ◌≢◌, not, Option, none, some, [], arith, ◌==◌, string_eq, nat_eq, if◌then◌else◌,
  Option-cases, inl, inr, refl, find, keep, find-mem,
}
use homelab_homepage.Prelude.{int_eq, drop_if}
use homelab_homepage.Go.Map.{lookup, lookup-insert, lookup-erase}
use homelab_homepage.Go.Heap.{Ref}
use homelab_homepage.Store.Data.{DiscoveredService, source_network}
use homelab_homepage.Store.Discovered.{
  Discovered, deref, append_discovered, add_discovered, is_duplicate, remove_discovered,
  remove_discovered_by_container_id, clear_network_discovered, clear_loop, is_network, is_known,
  refresh, upsert_network_discovered, update_discovered_icon,
}
use homelab_homepage.Store.Discovered.Invariant.{IsIndexed}
use homelab_homepage.Store.Discovered.Clear.{
  clear_loop-Cleared, lookup_id-cleared, lookup_id-cleared_none, same_cell,
}

-- What `GetDiscoveredByID` shows of the entry `id`.
unfoldable pub view : Discovered → String → Option DiscoveredService
view t id = Option.map (deref t) (lookup id t.discovered_idx)

abbrev pub with_icon : String → DiscoveredService → DiscoveredService
with_icon icon d = record d { icon = icon }

module _ (t : Discovered) (v : IsIndexed t) where
  below : (i : String) (p : Ref) → lookup i t.discovered_idx ≡ some p → p < t.heap.next
  below i p e = (v.listed p (v.by_id i p e).1).1

  view-append_discovered :
      (d : DiscoveredService) (i : String)
      → view (append_discovered d t) i ≡ (if d.id == i then some d else view t i)
  unfolding view append_discovered
  view-append_discovered d i = elim (Option-cases (lookup i t.discovered_idx)) [
    | inl e ↦ simp lookup-insert (ground (arith, e))
    | inr (p, e) ↦ simp lookup-insert (ground (arith, e, below i p e))
  ]

  -- With consistent indexes, an entry is added unless its container, or its address and port, is
  -- in the list already; then nothing changes.
  pub view-add_discovered :
      (d : DiscoveredService) (i : String)
      → view (add_discovered d t) i
        ≡ (if is_duplicate d t then view t i else if d.id == i then some d else view t i)
  unfolding add_discovered
  view-add_discovered d i = ground (arith, view-append_discovered d i)

  pub view-remove_discovered :
      (id i : String) → view (remove_discovered id t) i ≡ (if id == i then none else view t i)
  unfolding view remove_discovered
  view-remove_discovered id i = elim (Option-cases (lookup id t.discovered_idx)) [
    | inl e ↦ rw (e, remove_discovered) (ground (arith, e))
    | inr (p, e) ↦ rw (e, remove_discovered) (simp lookup-erase (ground (arith, e, v.by_id id p)))
  ]

  -- With consistent indexes, the removal of a container whose id is not empty takes away the
  -- entries of that container and no others.
  pub view-remove_discovered_by_container_id :
      (cid i : String)
      → cid ≢ ""
      → view (remove_discovered_by_container_id cid t) i
        ≡ drop_if (λ d. d.container_id == cid) (view t i)
  unfolding view remove_discovered_by_container_id
  view-remove_discovered_by_container_id cid i ne =
      elim (Option-cases (lookup cid t.discovered_container_idx)) [
        | inl e ↦
            rw (e, remove_discovered_by_container_id)
              (elim (Option-cases (lookup i t.discovered_idx)) [
                | inl f ↦ ground (arith, e, f)
                | inr (q, f) ↦ ground (arith, e, f, ne, v.by_id i q, v.held q)
              ])
        | inr (p, e) ↦
            rw (e, remove_discovered_by_container_id)
              (elim (Option-cases (lookup i t.discovered_idx)) [
                | inl f ↦ simp lookup-erase (ground (arith, e, f))
                | inr (q, f) ↦ simp lookup-erase (
                    ground
                      (arith, e, f, ne, v.by_id i q, v.held q, v.by_container cid p, v.listed p))
              ])
      ]

  pub view-update_discovered_icon :
      (id icon i : String)
      → view (update_discovered_icon id icon t) i
        ≡ (if id == i then Option.map (with_icon icon) (view t i) else view t i)
  unfolding view update_discovered_icon
  view-update_discovered_icon id icon i = elim (Option-cases (lookup id t.discovered_idx)) [
    | inl e ↦ ground (arith, e)
    | inr (p, e) ↦ elim (Option-cases (lookup i t.discovered_idx)) [
      | inl f ↦ ground (arith, e, f)
      | inr (q, f) ↦ ground (arith, e, f, v.by_id id p, v.by_id i q)
    ]
  ]

  -- The scan starts from the entries of other sources, in their old order and unchanged.
  pub view-clear_network_discovered :
      ((clear_network_discovered t).discovered ≡ keep (λ p. not (is_network t p)) t.discovered)
      × ((i : String)
          → view (clear_network_discovered t) i
            ≡ drop_if (λ d. d.source == source_network) (view t i))
  unfolding view clear_network_discovered
  view-clear_network_discovered =
      let r = clear_loop t.discovered [] t in
      let c = clear_loop-Cleared t.discovered [] t in
      (
        c.rest,
        λ i. elim (Option-cases (lookup i t.discovered_idx)) [
          | inl f ↦ ground (arith, f, lookup_id-cleared_none t v r c i f)
          | inr (q, f) ↦ ground (arith, f, lookup_id-cleared t v r c i q f, same_cell t v r c q)
        ],
      )

-- An upsert returns the id of a network entry with the address and port that it was given: the
-- entry that was there, refreshed, or the new one. Every other entry stays as it was.
abbrev pub shown : Discovered → DiscoveredService → Option Ref → DiscoveredService
shown t svc none = svc
shown t svc (some p) = refresh svc (deref t p)

module _ (t : Discovered) (v : IsIndexed t) (svc : DiscoveredService) where
  -- With consistent indexes, a network result refreshes the first network entry at its address,
  -- which keeps its id, or is added where there is none; the id that is returned is the one of
  -- that entry, and all other entries stay.
  pub view-upsert_network_discovered :
      ((upsert_network_discovered svc t).0 ≡ (shown t svc (find (is_known t svc) t.discovered)).id)
      × ((i : String)
          → view (upsert_network_discovered svc t).1 i ≡ (
              if (upsert_network_discovered svc t).0 == i
              then some (shown t svc (find (is_known t svc) t.discovered))
              else view t i))
  unfolding upsert_network_discovered view
  view-upsert_network_discovered = elim (Option-cases (find (is_known t svc) t.discovered)) [
    | inl e ↦ rw (e, upsert_network_discovered) (refl, λ i. view-append_discovered t v svc i)
    | inr (p, e) ↦
        let m = find-mem (is_known t svc) t.discovered p e in
        rw (e, upsert_network_discovered)
          (
            refl,
            λ i. elim (Option-cases (lookup i t.discovered_idx)) [
              | inl f ↦ ground (arith, f, v.listed p m.0)
              | inr (q, f) ↦ ground (arith, f, v.listed p m.0, v.by_id i q)
            ],
          )
  ]
