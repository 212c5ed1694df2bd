-- ===== src/Store/Bookmarks/View.antt =====
-- The bookmarks as clients see them: a partial function from ids to bookmarks.
use mathlib.Core.Option
use homelab_homepage.Prelude.{
  ℕ, suc, String, ◌<◌, ◌≡◌, Option, none, some, List, [], ◌∷◌, arith, ◌==◌, string_eq, nat_eq,
  if◌then◌else◌, Option-cases, inl, inr,
}
use homelab_homepage.Go.Map.{lookup, lookup-insert, lookup-erase}
use homelab_homepage.Go.Heap.{Ref}
use homelab_homepage.Go.Text.{is_some}
use homelab_homepage.Store.Data.{Bookmark}
use homelab_homepage.Store.Bookmarks.{
  Bookmarks, deref, add_bookmark, replace_first, update_bookmark, delete_bookmark, set_order,
  reorder_from, reorder_bookmarks,
}
use homelab_homepage.Store.Bookmarks.Invariant.{
  IsIndexed, replace_first-Replaced, replace_first-none, set_order-IsIndexed,
}
use homelab_homepage.Store.Services.View.{order_in}

-- What `GetBookmarkByID` shows of the bookmark `id`.
unfoldable pub view : Bookmarks → String → Option Bookmark
view t id = Option.map (deref t) (lookup id t.bookmark_idx)

module _ (t : Bookmarks) (v : IsIndexed t) where
  below : (i : String) (p : Ref) → lookup i t.bookmark_idx ≡ some p → p < t.heap.next
  below i p e = (v.listed p (v.by_id i p e).1).1

  pub view-add_bookmark :
      (b : Bookmark) (i : String)
      → view (add_bookmark b t) i ≡ (if b.id == i then some b else view t i)
  unfolding view add_bookmark
  view-add_bookmark b i = elim (Option-cases (lookup i t.bookmark_idx)) [
    | inl e ↦ simp lookup-insert (ground (arith, e))
    | inr (p, e) ↦ simp lookup-insert (ground (arith, e, below i p e))
  ]

  -- The loops stop at an entry exactly when the index has the id.
  indexed_none :
      (id : String) (by : List Ref)
      → replace_first t id by t.bookmarks ≡ none
      → lookup id t.bookmark_idx ≡ none
  indexed_none id by e = elim (Option-cases (lookup id t.bookmark_idx)) [
    | inl f ↦ f
    | inr (p, f) ↦
        absurd (replace_first-none t id by t.bookmarks e p (v.by_id id p f).1 (v.by_id id p f).0)
  ]

  indexed_some :
      (id : String) (by : List Ref) (p : Ref) (ps : List Ref)
      → replace_first t id by t.bookmarks ≡ some (p, ps)
      → ((deref t p).id ≡ id) × (lookup id t.bookmark_idx ≡ some p)
  indexed_some id by p ps e =
      let r = replace_first-Replaced t id by t.bookmarks v.distinct p ps e in
      (r.named, ground (arith, r.named, v.listed p r.there))

  module _ (id : String) where
    -- The update succeeds exactly when the bookmark is there; then it is the one that is shown, and
    -- the others stay as they were.
    pub view-update_bookmark :
        (updated : Bookmark)
        → updated.id ≡ id
        → ((update_bookmark id updated t).0 ≡ is_some (view t id))
          × ((i : String)
              → view (update_bookmark id updated t).1 i
                ≡ (if id == i then Option.map (λ _. updated) (view t i) else view t i))
    unfolding update_bookmark view
    view-update_bookmark updated same =
        elim (Option-cases (replace_first t id (t.heap.next ∷ []) t.bookmarks)) [
          | inl e ↦
              let f = indexed_none id (t.heap.next ∷ []) e in
              rw (e, update_bookmark) (ground (arith, f), λ i. ground (arith, f))
          | inr ((p, ps), e) ↦
              let f = indexed_some id (t.heap.next ∷ []) p ps e in
              rw (e, update_bookmark)
                (
                  ground (arith, f),
                  λ i. elim (Option-cases (lookup i t.bookmark_idx)) [
                    | inl g ↦ simp (lookup-insert, lookup-erase) (ground (arith, f, g, same))
                    | inr (q, g) ↦
                        simp (lookup-insert, lookup-erase) (ground (arith, f, g, same, below i q g))
                  ],
                )
        ]

    pub view-delete_bookmark :
        ((delete_bookmark id t).0 ≡ is_some (view t id))
        × ((i : String) → view (delete_bookmark id t).1 i ≡ (if id == i then none else view t i))
    unfolding delete_bookmark view
    view-delete_bookmark = elim (Option-cases (replace_first t id [] t.bookmarks)) [
      | inl e ↦
          let f = indexed_none id [] e in
          rw (e, delete_bookmark) (ground (arith, f), λ i. ground (arith, f))
      | inr ((p, ps), e) ↦
          let f = indexed_some id [] p ps e in
          rw (e, delete_bookmark) (ground (arith, f), λ i. simp lookup-erase (ground (arith, f)))
    ]

abbrev pub with_order : ℕ → List String → String → Bookmark → Bookmark
with_order i ids id b = record b { order = order_in i ids id b.order }

view-set_order :
    (i : ℕ) (j : String) (t : Bookmarks)
    → IsIndexed t
    → (id : String) → view (set_order i j t) id ≡ Option.map (with_order i (j ∷ []) id) (view t id)
unfolding view set_order
view-set_order i j t v id = elim (Option-cases (lookup j t.bookmark_idx)) [
  | inl e ↦ ground (arith, e)
  | inr (p, e) ↦ elim (Option-cases (lookup id t.bookmark_idx)) [
    | inl f ↦ ground (arith, e, f)
    | inr (q, f) ↦ ground (arith, e, f, v.by_id j p, v.by_id id q)
  ]
]

view-reorder_from :
    (i : ℕ) (ids : List String) (t : Bookmarks)
    → IsIndexed t
    → (id : String) → view (reorder_from i ids t) id ≡ Option.map (with_order i ids id) (view t id)
unfolding reorder_from
view-reorder_from i [] t v id = ground arith
view-reorder_from i (j ∷ ids) t v id = ground (
  arith,
  view-reorder_from (suc i) ids (set_order i j t) (set_order-IsIndexed i j t v) id,
  view-set_order i j t v id,
)

pub view-reorder_bookmarks :
    (ids : List String) (t : Bookmarks)
    → IsIndexed t
    → (id : String)
    → view (reorder_bookmarks ids t) id ≡ Option.map (with_order 0 ids id) (view t id)
unfolding reorder_bookmarks
view-reorder_bookmarks ids t v id = view-reorder_from 0 ids t v id
