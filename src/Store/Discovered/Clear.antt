-- ===== src/Store/Discovered/Clear.antt =====
-- `ClearNetworkDiscovered`: the loop, and what it leaves.
use mathlib.Core.List.{append_assoc, append-nil}
use homelab_homepage.Prelude.{
  String, ◌≡◌, ◌≢◌, Bool, false, ◌&&◌, not, none, some, List, [], ◌∷◌, ◌++◌, arith, ◌==◌, ◌!=◌,
  string_eq, nat_eq, if◌then◌else◌, Option-cases, Bool-cases, inl, inr, refl, ap, contains,
  contains-keep, any, any_only, keep, ◌∙◌,
}
use homelab_homepage.Go.Map.{lookup, lookup-erase}
use homelab_homepage.Go.Heap.{Ref}
use homelab_homepage.Store.Data.{DiscoveredService}
use homelab_homepage.Store.Discovered.{
  Discovered, deref, unindex_discovered, is_network, clear_loop, clear_network_discovered,
}
use homelab_homepage.Store.Discovered.Invariant.{IsIndexed}

abbrev pub net_id : Discovered → String → Ref → Bool
net_id t i p = is_network t p && (deref t p).id == i

abbrev pub net_cid : Discovered → String → Ref → Bool
net_cid t c p = is_network t p && ((deref t p).container_id != "" && (deref t p).container_id == c)

-- What the loop returns from the entries `ps` that are left.
pub record Cleared (ps kept : List Ref) (t : Discovered) (r : List Ref × Discovered) : Type 0 where
  pub rest : r.0 ≡ kept ++ keep (λ p. not (is_network t p)) ps
  pub same_heap : r.1.heap ≡ t.heap
  pub ids :
      (i : String)
      → lookup i r.1.discovered_idx
        ≡ (if any (net_id t i) ps then none else lookup i t.discovered_idx)
  pub cids :
      (c : String)
      → lookup c r.1.discovered_container_idx
        ≡ (if any (net_cid t c) ps then none else lookup c t.discovered_container_idx)

pub clear_loop-Cleared :
    (ps kept : List Ref) (t : Discovered) → Cleared ps kept t (clear_loop ps kept t)
unfolding clear_loop unindex_discovered
clear_loop-Cleared [] kept t = record {
  rest = simp append-nil;
  same_heap = refl;
  ids = λ i. refl;
  cids = λ c. refl;
}
clear_loop-Cleared (p ∷ ps) kept t = elim (Bool-cases (is_network t p)) [
  | inl e ↦
      let c = clear_loop-Cleared ps kept (unindex_discovered p t) in
      rw (e, clear_loop)
        (record {
          rest = c.rest ∙ (rw e);
          same_heap = c.same_heap;
          ids = λ i. ground (arith, e, c.ids i, lookup-erase i (deref t p).id t.discovered_idx);
          cids = λ i. ground (
            arith,
            e,
            c.cids i,
            lookup-erase i (deref t p).container_id t.discovered_container_idx,
          );
        })
  | inr e ↦
      let c = clear_loop-Cleared ps (kept ++ p ∷ []) t in
      rw (e, clear_loop)
        (record {
          rest = c.rest ∙ append_assoc kept (p ∷ []) _ ∙ (rw e);
          same_heap = c.same_heap;
          ids = λ i. ground (arith, e, c.ids i);
          cids = λ i. ground (arith, e, c.cids i);
        })
]

module _ (t : Discovered) (v : IsIndexed t) (r : List Ref × Discovered)
    (c : Cleared t.discovered [] t r) where
  -- The loop empties the indexes of exactly the network entries.
  pub lookup_id-cleared :
      (i : String) (p : Ref)
      → lookup i t.discovered_idx ≡ some p
      → lookup i r.1.discovered_idx ≡ (if is_network t p then none else some p)
  lookup_id-cleared i p e = ground (
    arith,
    c.ids i,
    v.by_id i p,
    any_only (net_id t i) t.discovered p (v.by_id i p e).1
        (λ b m h. ground (arith, v.listed b, v.by_id i p)),
  )

  lookup_cid-cleared :
      (i : String) (p : Ref)
      → lookup i t.discovered_container_idx ≡ some p
      → lookup i r.1.discovered_container_idx ≡ (if is_network t p then none else some p)
  lookup_cid-cleared i p e = ground (
    arith,
    c.cids i,
    v.by_container i p,
    any_only (net_cid t i) t.discovered p (v.by_container i p e).2
        (λ b m h. ground (arith, v.held b, v.by_container i p)),
  )

  pub lookup_id-cleared_none :
      (i : String) → lookup i t.discovered_idx ≡ none → lookup i r.1.discovered_idx ≡ none
  lookup_id-cleared_none i e = ground (arith, c.ids i)

  lookup_cid-cleared_none :
      (i : String)
      → lookup i t.discovered_container_idx ≡ none
      → lookup i r.1.discovered_container_idx ≡ none
  lookup_cid-cleared_none i e = ground (arith, c.cids i)

  pub same_cell : (p : Ref) → deref r.1 p ≡ deref t p
  same_cell p = ap (λ h. h.cell p) c.same_heap

  kept-mem :
      (p : Ref) → contains r.0 p ≡ (if not (is_network t p) then contains t.discovered p else false)
  kept-mem p = rw c.rest (contains-keep (λ q. not (is_network t q)) t.discovered p)

  split_id :
      (i : String) (p : Ref)
      → lookup i r.1.discovered_idx ≡ some p
      → (lookup i t.discovered_idx ≡ some p) × (is_network t p ≡ false)
  split_id i p h = elim (Option-cases (lookup i t.discovered_idx)) [
    | inl e ↦ ground (arith, lookup_id-cleared_none i e)
    | inr (q, e) ↦ ground (arith, lookup_id-cleared i q e)
  ]

  split_cid :
      (i : String) (p : Ref)
      → lookup i r.1.discovered_container_idx ≡ some p
      → (lookup i t.discovered_container_idx ≡ some p) × (is_network t p ≡ false)
  split_cid i p h = elim (Option-cases (lookup i t.discovered_container_idx)) [
    | inl e ↦ ground (arith, lookup_cid-cleared_none i e)
    | inr (q, e) ↦ ground (arith, lookup_cid-cleared i q e)
  ]

  cleared-IsIndexed : IsIndexed (record r.1 { discovered = r.0 })
  cleared-IsIndexed = record {
    listed = λ p h.
        rw (same_cell p, c.same_heap)
          (ground (arith, h, kept-mem p, v.listed p, lookup_id-cleared (deref t p).id p));
    by_id = λ i p h. rw (same_cell p) (ground (arith, h, kept-mem p, split_id i p h, v.by_id i p));
    held = λ p h k.
        let k' : (deref t p).container_id ≢ "" =
          λ e. k (ap (λ (d : DiscoveredService). d.container_id) (same_cell p) ∙ e) in
        rw (same_cell p) (
          ground
            (arith, h, k', kept-mem p, v.held p, lookup_cid-cleared (deref t p).container_id p));
    by_container = λ i p h.
        rw (same_cell p) (ground (arith, h, kept-mem p, split_cid i p h, v.by_container i p));
  }

-- The removal of the network entries, in one pass over the list, leaves the list and its two
-- indexes consistent if they were.
pub clear_network_discovered-IsIndexed :
    (t : Discovered) → IsIndexed t → IsIndexed (clear_network_discovered t)
unfolding clear_network_discovered
clear_network_discovered-IsIndexed t v =
    cleared-IsIndexed t v _ (clear_loop-Cleared t.discovered [] t)
