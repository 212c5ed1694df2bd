-- ===== src/Store/Services/View.antt =====
-- internal/store/store.go: the services as clients see them, a partial function from ids to services,
-- and the operations on that function.
use mathlib.Core.Option
use homelab_homepage.Prelude.{
  ℕ, suc, ◌+◌, String, ◌<◌, ◌≡◌, Option, none, some, List, [], ◌∷◌, arith, ◌==◌, string_eq, nat_eq,
  if◌then◌else◌, Option-cases, inl, inr, refl, contains, false, length, ◌++◌,
}
use homelab_homepage.Prelude.{ℤ, pos}
use homelab_homepage.Go.Map.{lookup, lookup-insert, lookup-erase}
use homelab_homepage.Go.Heap.{Ref}
use homelab_homepage.Store.Data.{Service}
use homelab_homepage.Store.Services.{
  Services, deref, add_service, delete_found, delete_service, update_service, replace_found,
  set_order, reorder_from, reorder_services,
}
use homelab_homepage.Store.Services.Invariant.{IsIndexed, set_order-IsIndexed}

-- What `GetServiceByID` shows of the service `id`.
unfoldable pub view : Services → String → Option Service
view t id = Option.map (deref t) (lookup id t.id_idx)

module _ (t : Services) (v : IsIndexed t) where
  below : (i : String) (p : Ref) → lookup i t.id_idx ≡ some p → p < t.heap.next
  below i p e = (v.keyed (deref t p).subdomain p (v.by_id i p e).1).1

  -- A service that is added is found under its id, and the others stay as they were.
  pub view-add_service :
      (svc : Service) (i : String)
      → view (add_service svc t) i ≡ (if svc.id == i then some svc else view t i)
  unfolding view add_service
  view-add_service svc i = elim (Option-cases (lookup i t.id_idx)) [
    | inl e ↦ simp lookup-insert (ground (arith, e))
    | inr (p, e) ↦ simp lookup-insert (ground (arith, e, below i p e))
  ]

  view-replace_found :
      (id : String) (updated : Service) (same : updated.id ≡ id) (p : Ref)
      → lookup id t.id_idx ≡ some p
      → (i : String)
      → view (replace_found p updated t) i ≡ (if id == i then some updated else view t i)
  unfolding view replace_found
  view-replace_found id updated same p found i = elim (Option-cases (lookup i t.id_idx)) [
    | inl e ↦ simp (lookup-insert, lookup-erase) (ground (arith, e, v.by_id id p))
    | inr (q, e) ↦ simp (lookup-insert, lookup-erase) (ground (arith, e, v.by_id id p, below i q e))
  ]

  view-delete_found :
      (id : String) (p : Ref)
      → lookup id t.id_idx ≡ some p
      → (i : String) → view (delete_found p t) i ≡ (if id == i then none else view t i)
  unfolding view delete_found
  view-delete_found id p found i = simp lookup-erase (ground (arith, v.by_id id p))

-- The results (oldSub, oldDNSID) and (sub, dnsID, tunnelRoute) read off the service that was there.
abbrev pub replaced : Option Service → String × String
replaced none = ("", "")
replaced (some s) = (s.subdomain, s.dns_record_id)

abbrev pub deleted : Option Service → String × String × String
deleted none = ("", "", "")
deleted (some s) = (s.subdomain, s.dns_record_id, s.tunnel_route_id)

module _ (t : Services) (v : IsIndexed t) (id : String) where
  pub view-update_service :
      (updated : Service)
      → updated.id ≡ id
      → ((update_service id updated t).0 ≡ replaced (view t id))
        × ((i : String)
            → view (update_service id updated t).1 i
              ≡ (if id == i then Option.map (λ _. updated) (view t i) else view t i))
  unfolding update_service view
  view-update_service updated same = elim (Option-cases (lookup id t.id_idx)) [
    | inl e ↦ rw (e, update_service) (refl, λ i. ground (arith, e))
    | inr (p, e) ↦
        rw (e, update_service)
          (refl, λ i. ground (arith, e, view-replace_found t v id updated same p e i))
  ]

  -- With consistent indexes, a deletion returns the subdomain, DNS id and route of the service
  -- with the id, or empty texts where there is none, and afterwards that id finds nothing while
  -- every other id finds what it found.
  pub view-delete_service :
      ((delete_service id t).0 ≡ deleted (view t id))
      × ((i : String) → view (delete_service id t).1 i ≡ (if id == i then none else view t i))
  unfolding delete_service view
  view-delete_service = elim (Option-cases (lookup id t.id_idx)) [
    | inl e ↦ rw (e, delete_service) (refl, λ i. ground (arith, e))
    | inr (p, e) ↦ rw (e, delete_service) (refl, λ i. view-delete_found t v id p e i)
  ]

-- The order that a list of ids gives to `id`: the place of its last occurrence.
abbrev pub order_in : ℕ → List String → String → ℤ → ℤ
order_in i [] id old = old
order_in i (j ∷ ids) id old = order_in (suc i) ids id (if j == id then pos i else old)

abbrev pub with_order : ℕ → List String → String → Service → Service
with_order i ids id s = record s { order = order_in i ids id s.order }

view-set_order :
    (i : ℕ) (j : String) (t : Services)
    → IsIndexed t
    → (id : String) → view (set_order i j t) id ≡ Option.map (with_order i (j ∷ []) id) (view t id)
unfolding view set_order
view-set_order i j t v id = elim (Option-cases (lookup j t.id_idx)) [
  | inl e ↦ ground (arith, e)
  | inr (p, e) ↦ elim (Option-cases (lookup id t.id_idx)) [
    | inl f ↦ ground (arith, e, f)
    | inr (q, f) ↦ ground (arith, e, f, v.by_id j p, v.by_id id q)
  ]
]

view-reorder_from :
    (i : ℕ) (ids : List String) (t : Services)
    → IsIndexed t
    → (id : String) → view (reorder_from i ids t) id ≡ Option.map (with_order i ids id) (view t id)
unfolding reorder_from
view-reorder_from i [] t v id = ground arith
view-reorder_from i (j ∷ ids) t v id = ground (
  arith,
  view-reorder_from (suc i) ids (set_order i j t) (set_order-IsIndexed i j t v) id,
  view-set_order i j t v id,
)

order_in-absent :
    (i : ℕ) (ids : List String) (id : String) (o : ℤ)
    → contains ids id ≡ false
    → order_in i ids id o ≡ o
order_in-absent i [] id o h = refl
order_in-absent i (j ∷ ids) id o h = ground (arith, order_in-absent (suc i) ids id o)

order_in-last :
    (i : ℕ) (xs ys : List String) (id : String) (o : ℤ)
    → contains ys id ≡ false
    → order_in i (xs ++ id ∷ ys) id o ≡ pos (i + length xs)
order_in-last i [] ys id o h = ground (arith, order_in-absent (suc i) ys id (pos i))
order_in-last i (x ∷ xs) ys id o h =
    ground (arith, h, order_in-last (suc i) xs ys id (if x == id then pos i else o))

-- After a reorder the service `id` has the order that its last occurrence in the list gives it,
-- and keeps the old one if it does not occur; nothing else of any service changes.
pub view-reorder_services :
    (ids : List String) (t : Services)
    → IsIndexed t
    → (id : String)
    → view (reorder_services ids t) id ≡ Option.map (with_order 0 ids id) (view t id)
unfolding reorder_services
view-reorder_services ids t v id = view-reorder_from 0 ids t v id

-- With consistent indexes, a reordering gives to a service that is listed the place of its last
-- occurrence in the list as its order, and changes nothing else of it.
pub view-reorder_services_at :
    (xs ys : List String) (t : Services)
    → IsIndexed t
    → (id : String) (s : Service) → view t id ≡ some s
    → contains ys id ≡ false
    → view (reorder_services (xs ++ id ∷ ys) t) id ≡ some (record s { order = pos (length xs) })
view-reorder_services_at xs ys t v id s e h =
    ground (arith, view-reorder_services (xs ++ id ∷ ys) t v id, order_in-last 0 xs ys id s.order h)
