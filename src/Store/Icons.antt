-- ===== src/Store/Icons.antt =====
-- internal/store/store.go: the paths of icon files, and the migration of icons out of the data. A
-- file system is a map of paths; a file cannot be written where `writable` says so.
pub mod Paths
use homelab_homepage.Prelude.{
  ℕ, ◌+◌, String, ◌<>◌, Bool, true, false, ◌&&◌, ◌||◌, Option, none, some, List, [], ◌∷◌, ◌==◌,
  string_eq, if◌then◌else◌,
}
use homelab_homepage.Go.Map.{Map, lookup, insert, erase}
use homelab_homepage.Go.Text.{has_byte, contains_text, has_prefix, cut}

-- filepath.Clean on a text without separators.
abbrev clean : String → String
clean id = if id == "" then "." else id

-- filepath.Join of a clean directory that is not empty and a name from `clean`.
abbrev join : String → String → String
join dir name = if name == "." then dir else dir <> ("/" <> name)

unfoldable pub safe_icon_path : String → String → Option String
safe_icon_path icon_dir id =
    if (has_byte b'/' id || has_byte b'\\' id) || (contains_text id ".." || id == "")
    then none
    else let p = join icon_dir (clean id) in if has_prefix p icon_dir then some p else none

-- `files` is the disk, `base64` is the decoder of encoding/base64, with `none` for an error.
pub record Disk : Type 0 where
  pub files : Map String
  pub writable : Bool

abbrev pub write_file : String → String → Disk → Bool × Disk
write_file path content d =
    if d.writable then (true, record d { files = insert path content d.files }) else (false, d)

abbrev write_at : Option String → String → Disk → Bool × Disk
write_at none content d = (false, d)
write_at (some path) content d = write_file path content d

-- With whether there was no error.
unfoldable pub write_icon : String → String → String → Disk → Bool × Disk
write_icon icon_dir id content d = write_at (safe_icon_path icon_dir id) content d

abbrev read_at : Option String → Disk → Option String
read_at none d = none
read_at (some path) d = lookup path d.files

unfoldable pub read_icon : String → String → Disk → Option String
read_icon icon_dir id d = read_at (safe_icon_path icon_dir id) d

abbrev remove_at : Option String → Disk → Disk
remove_at none d = d
remove_at (some path) d = record d { files = erase path d.files }

unfoldable pub delete_icon : String → String → Disk → Disk
delete_icon icon_dir id d = remove_at (safe_icon_path icon_dir id) d

module _ (base64 : String → Option String) where
  abbrev write_decoded : String → Option String → Disk → Bool × Disk
  write_decoded path none d = (false, d)
  write_decoded path (some content) d =
      if content == "" then (false, d) else write_file path content d

  abbrev write_after : String → Option (String × String) → Disk → Bool × Disk
  write_after path none d = (false, d)
  write_after path (some (mime, after)) d = write_decoded path (base64 after) d

  unfoldable pub write_data_uri : String → String → Disk → Bool × Disk
  write_data_uri path uri d = write_after path (cut "," uri) d

  abbrev migrated : Bool × Disk → String → String × Disk
  migrated (true, d) icon = ("file", d)
  migrated (false, d) icon = (icon, d)

  -- One round of the three loops of `migrateIcons`, for an entry with this id and icon.
  unfoldable pub migrate_icon : String → String → String → Disk → String × Disk
  migrate_icon icon_dir id icon d =
      if has_prefix icon "data:"
      then migrated (write_data_uri (join icon_dir (clean id)) icon d) icon
      else (icon, d)
