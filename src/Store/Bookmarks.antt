-- ===== src/Store/Bookmarks.antt =====
-- The bookmarks of internal/store/store.go: the list, its index, and the objects that both point to.
pub mod Invariant
pub mod View
use mathlib.Core.Option
use homelab_homepage.Prelude.{
  ℕ, suc, String, Bool, true, false, Option, none, some, List, [], ◌∷◌, ◌++◌, ◌==◌, string_eq,
  nat_eq, if◌then◌else◌,
}
use homelab_homepage.Prelude.{ℤ, pos}
use homelab_homepage.Go.Map.{Map, lookup, insert, erase}
use homelab_homepage.Go.Heap.{Ref, Heap, alloc, write}
use homelab_homepage.Store.Data.{Bookmark, zero_bookmark}

pub record Bookmarks : Type 0 where
  pub heap : Heap Bookmark
  pub bookmarks : List Ref
  pub bookmark_idx : Map Ref

abbrev pub empty : Bookmarks
empty = record {
  heap = record { next = 0; cell = λ _. zero_bookmark };
  bookmarks = [];
  bookmark_idx = [];
}

-- `*b`
abbrev pub deref : Bookmarks → Ref → Bookmark
deref t p = t.heap.cell p

unfoldable pub index_bookmark : Ref → Bookmarks → Bookmarks
index_bookmark p t = record t { bookmark_idx = insert (deref t p).id p t.bookmark_idx }

unfoldable pub unindex_bookmark : Ref → Bookmarks → Bookmarks
unindex_bookmark p t = record t { bookmark_idx = erase (deref t p).id t.bookmark_idx }

unfoldable pub get_bookmark_by_id : String → Bookmarks → Option Ref
get_bookmark_by_id id t = lookup id t.bookmark_idx

pub get_all_bookmarks : Bookmarks → List Ref
get_all_bookmarks t = t.bookmarks

unfoldable pub add_bookmark : Bookmark → Bookmarks → Bookmarks
unfolding index_bookmark
add_bookmark b t =
    index_bookmark t.heap.next
      (record t { heap = alloc b t.heap; bookmarks = t.bookmarks ++ t.heap.next ∷ [] })

-- The loops of `UpdateBookmark` and `DeleteBookmark` up to the first entry with the id: that entry,
-- and the list in which it is replaced or left out.
unfoldable pub replace_first : Bookmarks → String → List Ref → List Ref → Option (Ref × List Ref)
replace_first t id by [] = none
replace_first t id by (p ∷ ps) =
    let later = Option.map (λ (q, qs). (q, p ∷ qs)) (replace_first t id by ps) in
    if (deref t p).id == id then some (p, by ++ ps) else later

unfoldable pub update_bookmark : String → Bookmark → Bookmarks → Bool × Bookmarks
unfolding replace_first index_bookmark unindex_bookmark
update_bookmark id updated t = elim (replace_first t id (t.heap.next ∷ []) t.bookmarks) [
  | none ↦ (false, t)
  | some (p, ps) ↦ (
    true,
    index_bookmark t.heap.next
        (record (unindex_bookmark p t) { heap = alloc updated t.heap; bookmarks = ps }),
  )
]

unfoldable pub delete_bookmark : String → Bookmarks → Bool × Bookmarks
unfolding replace_first unindex_bookmark
delete_bookmark id t = elim (replace_first t id [] t.bookmarks) [
  | none ↦ (false, t)
  | some (p, ps) ↦ (true, record (unindex_bookmark p t) { bookmarks = ps })
]

-- One round of the loop of `ReorderBookmarks`.
pub set_order : ℕ → String → Bookmarks → Bookmarks
set_order i id t = elim (lookup id t.bookmark_idx) [
  | none ↦ t
  | some p ↦ record t { heap = write p (record (deref t p) { order = pos i }) t.heap }
]

pub reorder_from : ℕ → List String → Bookmarks → Bookmarks
unfolding set_order
reorder_from i [] t = t
reorder_from i (id ∷ ids) t = reorder_from (suc i) ids (set_order i id t)

unfoldable pub reorder_bookmarks : List String → Bookmarks → Bookmarks
unfolding reorder_from
reorder_bookmarks ids t = reorder_from 0 ids t
