-- ===== src/Web/Groups.antt =====
-- internal/web/templates.go and fragments.go: search and grouping of services and bookmarks for the
-- pages. `sort.Slice`, `sort.SliceStable` and `strings.ToLower` are parameters.
pub mod Partition
use mathlib.Core.List.{map}
use homelab_homepage.Prelude.{
  String, Bool, true, false, ◌||◌, ◌&&◌, not, Option, none, some, List, [], ◌∷◌, ◌++◌, ◌==◌, ◌!=◌,
  string_eq, if◌then◌else◌, contains, keep, ℤ, ltℤ, int_eq,
}
use homelab_homepage.Go.Map.{Map, lookup, insert}
use homelab_homepage.Go.Text.{contains_text, or_else, text_less}

-- `keys`, with `seen` as its members, and `groups`.
pub record Grouped (T : Type 0) : Type 0 where
  pub keys : List String
  pub groups : Map (List T)

abbrev pub add_key : String → List String → List String
add_key cat keys = if contains keys cat then keys else keys ++ cat ∷ []

-- `sort.Slice` on the items and `sort.SliceStable` on the keys, by a comparison.
pub record Sorting (T : Type 0) : Type 0 where
  pub slice : (T → T → Bool) → List T → List T
  pub slice_stable : (String → String → Bool) → List String → List String

-- The comparison of two keys: the empty one is first, and the others go by their lower case.
unfoldable pub key_less : (String → String) → String → String → Bool
key_less to_lower a b =
    if a == "" then true else if b == "" then false else text_less (to_lower a) (to_lower b)

module _ {T : Type 0} where
  unfoldable pub filter_by_query : (String → String) → (T → String) → String → List T → List T
  filter_by_query to_lower text q items =
      if q == "" then items else keep (λ v. contains_text (to_lower (text v)) q) items

  unfoldable pub group_loop : (T → String) → List T → Grouped T → Grouped T
  group_loop category [] g = g
  group_loop category (item ∷ items) g =
      let cat = category item in
      group_loop category items (record {
        keys = add_key cat g.keys;
        groups = insert cat (or_else (lookup cat g.groups) [] ++ item ∷ []) g.groups;
      })

  -- The comparison of two items: by their orders, then by their names in lower case.
  unfoldable pub item_less : (String → String) → (T → ℤ) → (T → String) → T → T → Bool
  item_less to_lower order name a b =
      if order a != order b
      then ltℤ (order a) (order b)
      else text_less (to_lower (name a)) (to_lower (name b))

  unfoldable pub sort_and_group :
      Sorting T → (String → String) → (T → ℤ) → (T → String) → (T → String) → List T → Grouped T
  unfolding item_less
  sort_and_group sorting to_lower order name category items =
      let sorted = sorting.slice (item_less to_lower order name) items in
      let g = group_loop category sorted (record { keys = []; groups = [] }) in
      record g { keys = sorting.slice_stable (key_less to_lower) g.keys }

  -- The groups of a page, in the order of the keys: `buildServicesGrid` and `buildBookmarksGrid`.
  unfoldable pub build_grid :
      Sorting T
      → (String → String)
      → (T → ℤ)
      → (T → String)
      → (T → String)
      → List T
      → List (String × List T)
  build_grid sorting to_lower order name category items =
      let g = sort_and_group sorting to_lower order name category items in
      map (λ k. (k, or_else (lookup k g.groups) [])) g.keys

-- One of the two loops of `getUniqueCategories`, over the categories of the items.
unfoldable pub add_categories : List String → List String → List String
add_categories [] cats = cats
add_categories (c ∷ cs) cats =
    add_categories cs (if c != "" && not (contains cats c) then cats ++ c ∷ [] else cats)

unfoldable pub get_unique_categories :
    (List String → List String) → List String → List String → List String
get_unique_categories sort services bookmarks =
    sort (add_categories bookmarks (add_categories services []))
