-- ===== src/Web/Tests/Pages.antt =====
-- Bookmarks, groups, compression and favicons at concrete inputs.
use mathlib.Core.Option
use homelab_homepage.Prelude.{
  String, ◌≡◌, refl, true, some, List, [], ◌∷◌, any, keep, contains, string_eq, string_dec, ◌==◌,
  if◌then◌else◌, pos, arith, ℕ_discrete, ℤ_discrete,
}
use homelab_homepage.Go.Map.{Map, lookup}
use homelab_homepage.Go.Text.{is_some, text_less}
use homelab_homepage.Store.Settings.{Unique}
use homelab_homepage.Store.Data.{Bookmark, zero_bookmark}
use homelab_homepage.Store.Bookmarks
use homelab_homepage.Store.Bookmarks.{Bookmarks, add_bookmark}
use homelab_homepage.Store.Bookmarks.Invariant.{IsIndexed, empty-IsIndexed, add_bookmark-IsIndexed}
use homelab_homepage.Store.Bookmarks.View.{view}
use homelab_homepage.Web.Server.{no_content, not_found}
use homelab_homepage.Web.Bookmarks.{Shelf, update_bookmark}
use homelab_homepage.Web.Bookmarks.Replaced.{with_web_scheme, update_bookmark_lem}
use homelab_homepage.Web.Groups.{Sorting, item_less, key_less, sort_and_group}
use homelab_homepage.Web.Groups.Partition.{KeepsKeys, group_of, sort_and_group_lem}
use homelab_homepage.Web.Gzip.{new_writer}
use homelab_homepage.Web.Gzip.Once.{write_header_op, write_op, run, IsOnce, run-new-IsOnce}
use homelab_homepage.Web.TtlCache.{new_ttl_cache, get}
use homelab_homepage.Web.Favicons.{Favicons, get_favicon, is_valid_icon_id, all_hex}
use homelab_homepage.Web.Favicons.Again.{get_favicon-again}

abbrev news : Bookmark
news = record zero_bookmark {
  id = "b1";
  name = "News";
  url = "https://news.example.com";
  icon = "file";
  order = pos 3;
}

abbrev shelf : Shelf
shelf = record { store = add_bookmark news Bookmarks.empty; icons = ("b1", "bytes") ∷ [] }

shelf-IsIndexed : IsIndexed shelf.store
unfolding lookup
shelf-IsIndexed = add_bookmark-IsIndexed Bookmarks.empty empty-IsIndexed news refl

abbrev form_value : String → String
form_value key = if key == "url" then "news.example.com" else if key == "name" then "Daily" else ""

update_bookmark_lem_example :
    let (status, after) = update_bookmark "b1" (some form_value) shelf in
    (status ≡ (if is_some (view shelf.store "b1") then no_content else not_found))
    × ((i : String)
        → view after.store i ≡ (
            if "b1" == i
            then Option.map
                (λ _. record {
                  id = "b1";
                  name = form_value "name";
                  url = with_web_scheme (form_value "url");
                  icon = "";
                  category = form_value "category";
                  order = pos 0;
                })
                (view shelf.store i)
            else view shelf.store i))
update_bookmark_lem_example = update_bookmark_lem "b1" form_value shelf shelf-IsIndexed

-- Sorts that find their lists in order.
abbrev sorting : Sorting (String × String)
sorting = record { slice = λ less items. items; slice_stable = λ less keys. keys }

abbrev category : String × String → String
category (name, group) = group

abbrev title : String × String → String
title (name, group) = name

sorting-KeepsKeys : KeepsKeys category (sorting.slice_stable (key_less (λ s. s)))
sorting-KeepsKeys = record { unique = λ keys u. u; same_keys = λ keys c. refl }

abbrev items : List (String × String)
items = ("Wiki", "") ∷ ("Films", "media") ∷ ("Plex", "media") ∷ []

sort_and_group_lem_example :
    let r = sort_and_group sorting (λ s. s) (λ i. pos 0) title category items in
    let sorted = sorting.slice (item_less (λ s. s) (λ i. pos 0) title) items in
    Unique r.keys
    × ((c : String) → contains r.keys c ≡ any (λ i. category i == c) sorted)
    × ((c : String) → group_of category c r ≡ keep (λ i. category i == c) sorted)
sort_and_group_lem_example =
    sort_and_group_lem category sorting (λ s. s) (λ i. pos 0) title items sorting-KeepsKeys

-- The items and the keys are in the order of the comparisons.
items-ordered :
    (item_less (λ s. s) (λ i. pos 0) title ("Films", "media") ("Plex", "media") ≡ true)
    × (key_less (λ s. s) "" "media" ≡ true)
unfolding item_less key_less text_less string_dec ℕ_discrete ℤ_discrete
items-ordered = (refl, refl)

abbrev headers : Map String
headers = ("Content-Length", "11") ∷ ("Content-Type", "text/html") ∷ []

run-new-IsOnce_example :
    IsOnce headers
      (write_header_op ∷ write_op "hello " ∷ write_op "world" ∷ [])
      (run (write_header_op ∷ write_op "hello " ∷ write_op "world" ∷ []) (new_writer headers))
run-new-IsOnce_example =
    run-new-IsOnce headers write_header_op (write_op "hello " ∷ write_op "world" ∷ [])

abbrev favicons : Favicons
favicons = record { cache = new_ttl_cache 4; disk = record { files = []; writable = true } }

-- The first fetch fails, and the second one would not.
get_favicon-again_example :
    let (a, after) =
      get_favicon "/data/icons" (λ id. "http://10.0.0.2") (λ target. "") 100 "1f" favicons in
    (get_favicon "/data/icons" (λ id. "http://10.0.0.2") (λ target. "bytes") 900 "1f" after).0 ≡ a
unfolding is_valid_icon_id all_hex string_dec get lookup
get_favicon-again_example =
    get_favicon-again "/data/icons" (λ id. "http://10.0.0.2") (λ target. "")
      (λ id. "http://10.0.0.2") (λ target. "bytes") 100 900 "1f" favicons refl refl (omega arith)
