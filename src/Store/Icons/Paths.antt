-- ===== src/Store/Icons/Paths.antt =====
-- internal/store/store.go: `safeIconPath`, and icons that are written, read and deleted.
use text.Mathlib.TextLemmas.{append_cancel_left}
use homelab_homepage.Prelude.{
  String, ◌<>◌, true, false, none, some, ◌==◌, string_eq, if◌then◌else◌, ◌≡◌, ◌≢◌, arith,
}
use homelab_homepage.Go.Map.{insert, lookup-insert, lookup-erase}
use homelab_homepage.Go.Text.{has_byte, contains_text, has_prefix, strip_prefix-append}
use homelab_homepage.Store.Icons.{Disk, safe_icon_path, write_icon, read_icon, delete_icon}

has_prefix-append : (p s : String) → has_prefix (p <> s) p ≡ true
unfolding has_prefix
has_prefix-append p s = ground (arith, strip_prefix-append p s)

-- A name of one component: no separator, not empty, and neither `.` nor with two dots in a row.
abbrev pub IsName : String → Type 0
IsName id =
    (has_byte b'/' id ≡ false)
    × (has_byte b'\\' id ≡ false)
    × (contains_text id ".." ≡ false)
    × (id ≢ "")
    × (id ≢ ".")

pub safe_icon_path-name :
    (dir id : String) → IsName id → safe_icon_path dir id ≡ some (dir <> ("/" <> id))
unfolding safe_icon_path
safe_icon_path-name dir id (slash, back, dots, given, dot) =
    ground (arith, slash, back, dots, given, dot, has_prefix-append dir ("/" <> id))

pub safe_icon_path_lem :
    (dir id path : String)
    → safe_icon_path dir id ≡ some path
    → id ≢ "."
    → IsName id × (path ≡ dir <> ("/" <> id))
unfolding safe_icon_path
safe_icon_path_lem dir id path e dot = ground (arith, e, dot)

-- Two names have two paths.
path-differs : (dir id other : String) → dir <> ("/" <> id) ≡ dir <> ("/" <> other) → id ≡ other
path-differs dir id other e =
    append_cancel_left "/" id other (append_cancel_left dir ("/" <> id) ("/" <> other) e)

pub read_icon-write_icon :
    (dir id other content : String) (d : Disk)
    → IsName id
    → IsName other
    → d.writable ≡ true
    → let (done, after) = write_icon dir id content d in
      (done ≡ true)
      × (read_icon dir other after ≡ (if id == other then some content else read_icon dir other d))
      × (read_icon dir other (delete_icon dir id after)
          ≡ (if id == other then none else read_icon dir other d))
unfolding write_icon read_icon delete_icon
read_icon-write_icon dir id other content d n m w =
    let p = safe_icon_path-name dir id n in
    let q = safe_icon_path-name dir other m in
    let same = path-differs dir id other in
    let put = lookup-insert (dir <> ("/" <> other)) (dir <> ("/" <> id)) content d.files in
    let gone =
      lookup-erase (dir <> ("/" <> other)) (dir <> ("/" <> id))
        (insert (dir <> ("/" <> id)) content d.files) in
    rw (p, q) (ground (arith, w), ground (arith, w, put, same), ground (arith, w, gone, put, same))
