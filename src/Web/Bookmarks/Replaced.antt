-- ===== src/Web/Bookmarks/Replaced.antt =====
-- internal/web/handle_bookmarks.go: what the handlers leave of a bookmark.
use mathlib.Core.Option
use Prim.Native.String.{count}
use text.Mathlib.TextLemmas.{length-append}
use homelab_homepage.Prelude.{
  String, ◌<>◌, Bool, true, false, none, some, ◌==◌, string_eq, if◌then◌else◌, ◌≡◌, ◌≢◌, refl,
  arith, Bool-cases, inl, inr, ap, ◌∙◌, Option-cases, ◌||◌, pos,
}
use homelab_homepage.Go.Map.{lookup}
use homelab_homepage.Go.Text.{is_some, has_prefix}
use homelab_homepage.Store.Bookmarks
use homelab_homepage.Store.Bookmarks.{Bookmarks}
use homelab_homepage.Store.Bookmarks.Invariant.{IsIndexed, add_bookmark-IsIndexed}
use homelab_homepage.Store.Bookmarks.View.{view, view-add_bookmark, view-update_bookmark}
use homelab_homepage.Web.Server.{no_content, bad_request, not_found}
use homelab_homepage.Web.Bookmarks.{
  Shelf, bookmark_of, name_or, normalize_bookmark_url, updated_to, create_bookmark, update_bookmark,
}

updated_to-branches :
    (r : Bool × Bookmarks) (s : Shelf)
    → ((updated_to r s).0 ≡ (if r.0 then no_content else not_found))
      × ((updated_to r s).1.store ≡ (if r.0 then r.1 else s.store))
updated_to-branches (true, store) s = (refl, refl)
updated_to-branches (false, store) s = (refl, refl)

-- A URL that is empty or names http or https stays; any other gets https.
abbrev pub with_web_scheme : String → String
with_web_scheme u =
    if u == "" || (has_prefix u "http://" || has_prefix u "https://") then u else "https://" <> u

normalize-with_web_scheme : (u : String) → normalize_bookmark_url u ≡ with_web_scheme u
unfolding normalize_bookmark_url
normalize-with_web_scheme u = ground arith

-- With consistent indexes, the answer to an update is a success exactly when the bookmark is
-- there; the bookmark then has its id, the name, the category and the URL of the form, the URL
-- with https where it is not empty and names neither http nor https, no icon and position 0, and
-- every other bookmark is left as it was.
pub update_bookmark_lem :
    (id : String) (form_value : String → String) (s : Shelf)
    → IsIndexed s.store
    → let (status, after) = update_bookmark id (some form_value) s in
      (status ≡ (if is_some (view s.store id) then no_content else not_found))
      × ((i : String)
          → view after.store i ≡ (
              if id == i
              then Option.map
                  (λ _. record {
                    id = id;
                    name = form_value "name";
                    url = with_web_scheme (form_value "url");
                    icon = "";
                    category = form_value "category";
                    order = pos 0;
                  })
                  (view s.store i)
              else view s.store i))
unfolding update_bookmark
update_bookmark_lem id form_value s v =
    let made = bookmark_of id (form_value "name") form_value in
    let (found, shown) = view-update_bookmark s.store v id made refl in
    let (status, store) = updated_to-branches (Bookmarks.update_bookmark id made s.store) s in
    (
      status ∙ ap (λ b. if b then no_content else not_found) found,
      λ i. ap (λ t. view t i) store ∙ elim (Option-cases (view s.store id)) [
        | inl e ↦ ground (arith, e, found)
        | inr (b, e) ↦
            ground (arith, e, found, shown i, normalize-with_web_scheme (form_value "url"))
      ],
    )

https-more : (u : String) → "https://" <> u ≢ ""
https-more u e = omega (arith, ap count e, length-append "https://" u)

-- Only the empty text becomes the empty URL.
normalize_empty : (u : String) → (normalize_bookmark_url u == "") ≡ (u == "")
unfolding normalize_bookmark_url
normalize_empty u = ground (arith, https-more u)

view-lookup : (t : Bookmarks) (id : String) → view t id ≡ none → lookup id t.bookmark_idx ≡ none
unfolding view
view-lookup t id e = ground (arith, e)

pub create_bookmark_lem :
    (id : String) (form_value : String → String) (s : Shelf)
    → IsIndexed s.store
    → view s.store id ≡ none
    → let (status, after) = create_bookmark id (some form_value) s in
      let url = normalize_bookmark_url (form_value "url") in
      let made = bookmark_of id (name_or (form_value "name") url) form_value in
      (status ≡ (if form_value "url" == "" then bad_request else no_content))
      × IsIndexed after.store
      × ((i : String)
          → view after.store i ≡ (
              if form_value "url" == ""
              then view s.store i
              else if id == i
              then some made
              else view s.store i))
unfolding create_bookmark
create_bookmark_lem id form_value s v fresh =
    let url = normalize_bookmark_url (form_value "url") in
    let made = bookmark_of id (name_or (form_value "name") url) form_value in
    let same = normalize_empty (form_value "url") in
    elim (Bool-cases (url == "")) [
      | inl e ↦ rw e (ground (arith, e, same), v, λ i. ground (arith, e, same))
      | inr e ↦ rw e (
        ground (arith, e, same),
        add_bookmark-IsIndexed s.store v made (view-lookup s.store id fresh),
        λ i. ground (arith, e, same, view-add_bookmark s.store v made i),
      )
    ]
