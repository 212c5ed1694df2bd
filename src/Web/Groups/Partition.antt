-- ===== src/Web/Groups/Partition.antt =====
-- internal/web/templates.go: what `sortAndGroup` makes of its items.
use mathlib.Core.List.{append_assoc, append-nil}
use homelab_homepage.Prelude.{
  String, true, ◌||◌, List, [], ◌∷◌, ◌++◌, ◌==◌, string_eq, contains, keep, any, ◌≡◌, refl, arith,
  Bool-cases, inl, inr, ap, ◌∙◌, sym, ℤ,
}
use homelab_homepage.Go.Map.{lookup, insert, lookup-insert, lookup-nil}
use homelab_homepage.Go.Text.{or_else}
use homelab_homepage.Store.Settings.{Unique, add_unique, add_unique-set}
use homelab_homepage.Web.Groups.{
  Grouped, Sorting, add_key, key_less, item_less, group_loop, sort_and_group,
}

add_key_lem :
    (cat : String) (keys : List String)
    → Unique keys
    → Unique (add_key cat keys)
      × ((c : String) → contains (add_key cat keys) c ≡ (cat == c || contains keys c))
unfolding add_unique
add_key_lem cat keys u = add_unique-set cat keys u

module _ {T : Type 0} (category : T → String) where
  abbrev pub group_of : String → Grouped T → List T
  group_of c g = or_else (lookup c g.groups) []

  same :
      (cat c : String)
      → (cat == c) ≡ true
      → (g : Grouped T) (item : T) (items : List T)
      → (or_else (lookup cat g.groups) [] ++ item ∷ []) ++ keep (λ i. category i == c) items
        ≡ or_else (lookup c g.groups) [] ++ item ∷ keep (λ i. category i == c) items
  same cat c e g item items =
      let q : cat ≡ c = ground (arith, e) in
      append_assoc (or_else (lookup cat g.groups) []) (item ∷ [])
        (keep (λ i. category i == c) items)
      ∙ ap (λ k. or_else (lookup k g.groups) [] ++ item ∷ keep (λ i. category i == c) items) q

  group_loop_lem :
      (items : List T) (g : Grouped T)
      → Unique g.keys
      → let r = group_loop category items g in
        Unique r.keys
        × ((c : String)
            → contains r.keys c ≡ (contains g.keys c || any (λ i. category i == c) items))
        × ((c : String) → group_of c r ≡ group_of c g ++ keep (λ i. category i == c) items)
  unfolding group_loop
  group_loop_lem [] g u = (u, λ c. ground arith, λ c. sym (append-nil (group_of c g)))
  group_loop_lem (item ∷ items) g u =
      let cat = category item in
      let (u1, keys1) = add_key_lem cat g.keys u in
      let list = or_else (lookup cat g.groups) [] ++ item ∷ [] in
      let (u2, keys2, groups2) =
        group_loop_lem items
          (record { keys = add_key cat g.keys; groups = insert cat list g.groups }) u1 in
      (
        u2,
        λ c. ground (arith, keys1 c, keys2 c),
        λ c. elim (Bool-cases (cat == c)) [
          | inl e ↦
              groups2 c
              ∙ ap (λ o. or_else o [] ++ keep (λ i. category i == c) items)
                  (lookup-insert c cat list g.groups)
              ∙ rw e (same cat c e g item items)
          | inr e ↦
              groups2 c
              ∙ ap (λ o. or_else o [] ++ keep (λ i. category i == c) items)
                  (lookup-insert c cat list g.groups)
              ∙ rw e refl
        ],
      )

  -- What `sort.SliceStable` does with the keys: it keeps them, and adds none.
  pub record KeepsKeys (sort_keys : List String → List String) : Type 0 where
    pub unique : (keys : List String) → Unique keys → Unique (sort_keys keys)
    pub same_keys :
        (keys : List String) (c : String) → contains (sort_keys keys) c ≡ contains keys c

  -- If the sort of the keys by their comparison keeps them and adds none, then the keys are the
  -- categories of the sorted items, each once, and the group of a category is the items of that
  -- category in their sorted order.
  pub sort_and_group_lem :
      (sorting : Sorting T) (to_lower : String → String) (order : T → ℤ) (name : T → String)
      (items : List T)
      → KeepsKeys (sorting.slice_stable (key_less to_lower))
      → let r = sort_and_group sorting to_lower order name category items in
        let sorted = sorting.slice (item_less to_lower order name) items in
        Unique r.keys
        × ((c : String) → contains r.keys c ≡ any (λ i. category i == c) sorted)
        × ((c : String) → group_of c r ≡ keep (λ i. category i == c) sorted)
  unfolding sort_and_group
  sort_and_group_lem sorting to_lower order name items k =
      let g0 : Grouped T = record { keys = []; groups = [] } in
      let sorted = sorting.slice (item_less to_lower order name) items in
      let (u, keys, groups) = group_loop_lem sorted g0 tt in
      (
        k.unique _ u,
        λ c. k.same_keys (group_loop category sorted g0).keys c ∙ keys c,
        λ c.
            groups c
            ∙ ap (λ o. or_else o [] ++ keep (λ i. category i == c) sorted)
                (lookup-nil {V = List T} c),
      )
