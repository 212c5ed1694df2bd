-- ===== src/Web/Bookmarks.antt =====
-- internal/web/handle_bookmarks.go: the handlers of bookmarks, with the icon files by id.
-- `FormValue` is a function; a form whose parsing fails is `none`. The goroutine that fetches an icon
-- is `fetch_bookmark_favicon`, which runs at some later time.
pub mod Replaced
use homelab_homepage.Prelude.{
  ℕ, String, ◌<>◌, Bool, true, false, ◌||◌, Option, none, some, List, ◌==◌, ◌!=◌, string_eq,
  if◌then◌else◌, pos,
}
use homelab_homepage.Go.Map.{Map, insert}
use homelab_homepage.Go.Heap.{Ref}
use homelab_homepage.Go.Text.{has_prefix}
use homelab_homepage.Store.Data.{Bookmark}
use homelab_homepage.Store.Bookmarks
use homelab_homepage.Store.Bookmarks.{Bookmarks, deref, add_bookmark, get_bookmark_by_id}
use homelab_homepage.Web.Server.{Status, ok_status, no_content, bad_request, not_found, delete_icon}

pub record Shelf : Type 0 where
  pub store : Bookmarks
  pub icons : Map String

unfoldable pub normalize_bookmark_url : String → String
normalize_bookmark_url u =
    if u == ""
    then u
    else if has_prefix u "http://" || has_prefix u "https://"
    then u
    else "https://" <> u

-- The bookmark of a form, but for its id; an empty name becomes the URL where it is created.
abbrev pub bookmark_of : String → String → (String → String) → Bookmark
bookmark_of id name form_value = record {
  id = id;
  name = name;
  url = normalize_bookmark_url (form_value "url");
  icon = "";
  category = form_value "category";
  order = pos 0;
}

abbrev pub name_or : String → String → String
name_or name url = if name == "" then url else name

unfoldable pub create_bookmark : String → Option (String → String) → Shelf → Status × Shelf
create_bookmark new_id none s = (bad_request, s)
create_bookmark new_id (some form_value) s =
    let url = normalize_bookmark_url (form_value "url") in
    if url == ""
    then (bad_request, s)
    else let bm = bookmark_of new_id (name_or (form_value "name") url) form_value in
      (no_content, record s { store = add_bookmark bm s.store })

abbrev updated_to : Bool × Bookmarks → Shelf → Status × Shelf
updated_to (true, store) s = (no_content, record s { store = store })
updated_to (false, store) s = (not_found, s)

unfoldable pub update_bookmark : String → Option (String → String) → Shelf → Status × Shelf
update_bookmark id none s = (bad_request, s)
update_bookmark id (some form_value) s =
    updated_to
      (Bookmarks.update_bookmark id (bookmark_of id (form_value "name") form_value) s.store) s

abbrev deleted_to : (Map String → Map String) → Bool × Bookmarks → Shelf → Status × Shelf
deleted_to without_icon (true, store) s =
    (ok_status, record s { store = store; icons = without_icon s.icons })
deleted_to without_icon (false, store) s = (not_found, s)

-- `removable` is whether os.Remove succeeds.
unfoldable pub delete_bookmark : String → Bool → String → Shelf → Status × Shelf
delete_bookmark icon_dir removable id s =
    deleted_to (delete_icon icon_dir removable id) (Bookmarks.delete_bookmark id s.store) s

abbrev with_icon : String → Option Ref → Shelf → Shelf
with_icon id none s = s
with_icon id (some p) s =
    let bm = deref s.store p in
    if bm.icon != "file"
    then record s { store = (Bookmarks.update_bookmark id (record bm { icon = "file" }) s.store).1 }
    else s

-- `fetched` is the icon that `FetchAndWriteFavicon` wrote, if it could.
unfoldable pub fetch_bookmark_favicon : String → Option String → Shelf → Shelf
fetch_bookmark_favicon id none s = s
fetch_bookmark_favicon id (some content) s =
    let written = record s { icons = insert id content s.icons } in
    with_icon id (get_bookmark_by_id id s.store) written
