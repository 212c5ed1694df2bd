-- ===== src/Web/Favicons.antt =====
-- internal/web/static.go: icons and favicons by id, with the cache in memory, the icon files and the
-- network. The bytes of an icon are a text; the types of contents are `content_type_of`.
pub mod Again
use Prim.Native.Char.{Char, code}
use Prim.Native.String.{[], ◌∷◌, count}
use homelab_homepage.Prelude.{
  ℕ, ◌*◌, String, Bool, true, false, ◌||◌, ◌&&◌, not, Option, none, some, ltb, leb, ◌==◌, string_eq,
  if◌then◌else◌,
}
use homelab_homepage.Store.Icons.{Disk, read_icon, write_icon}
use homelab_homepage.Web.TtlCache.{TtlCache, get, set}

abbrev pub is_hex : Char → Bool
is_hex c =
    (leb b'0' (code c) && leb (code c) b'9')
    || ((leb b'a' (code c) && leb (code c) b'f') || (leb b'A' (code c) && leb (code c) b'F'))

unfoldable pub all_hex : String → Bool
all_hex [] = true
all_hex (c ∷ s) = if is_hex c then all_hex s else false

-- `len` counts bytes, as many as characters in a text of hex digits, which the loop asks for.
unfoldable pub is_valid_icon_id : String → Bool
is_valid_icon_id id = if id == "" || ltb 64 (count id) then false else all_hex id

-- faviconEntry; `none` is the entry without data, after a fetch that failed.
abbrev pub FaviconEntry : Type 0
FaviconEntry = Option String

-- The answers: 404, or the bytes of an icon, whose type is computed of them.
abbrev pub Answer : Type 0
Answer = Option String

pub record Favicons : Type 0 where
  pub cache : TtlCache FaviconEntry
  pub disk : Disk

-- Times are in seconds: an hour, and fifteen minutes.
abbrev pub hour : ℕ
hour = 3600

abbrev pub negative_ttl : ℕ
negative_ttl = 900

-- `target_of` is `GetTarget`, `fetch` is `FetchFaviconForTarget`, whose text is empty if it fails.
module _ (icon_dir : String) (target_of : String → String) (fetch : String → String) (now : ℕ) where
  abbrev pub remember : String → FaviconEntry → ℕ → Favicons → Favicons
  remember id e ttl f = record f { cache = set now id e ttl f.cache }

  abbrev pub fetched : String → String → Favicons → Answer × Favicons
  fetched id content f = if content == "" then (none, remember id none negative_ttl f) else (
    some content,
    record (remember id (some content) hour f) { disk = (write_icon icon_dir id content f.disk).1 },
  )

  abbrev pub from_disk : String → String → Option String → Favicons → Answer × Favicons
  from_disk id target none f = fetched id (fetch target) f
  from_disk id target (some content) f =
      if content == ""
      then fetched id (fetch target) f
      else (some content, remember id (some content) hour f)

  abbrev pub uncached : String → Favicons → Answer × Favicons
  uncached id f =
      let target = target_of id in
      if target == ""
      then (none, remember id none negative_ttl f)
      else from_disk id target (read_icon icon_dir id f.disk) f

  abbrev pub from_cache :
      String → Option FaviconEntry × TtlCache FaviconEntry → Disk → Answer × Favicons
  from_cache id (some e, cache) disk = (e, record { cache = cache; disk = disk })
  from_cache id (none, cache) disk = uncached id (record { cache = cache; disk = disk })

  unfoldable pub get_favicon : String → Favicons → Answer × Favicons
  get_favicon id f =
      if not (is_valid_icon_id id) then (none, f) else from_cache id (get now id f.cache) f.disk
