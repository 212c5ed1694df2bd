-- ===== src/Util/Subdomain.antt =====
-- `SanitiseSubdomain` of internal/util/util.go. `lower` is the lower case of the letters beyond
-- ASCII, which the Unicode tables of Go give.
pub mod Label
use Prim.Native.Char.{Char, code}
use Prim.Native.String.{[], ◌∷◌}
use homelab_homepage.Prelude.{
  ℕ, String, Bool, true, false, ◌&&◌, ◌||◌, Option, none, some, leb, ltb, ◌==◌, string_eq, nat_eq,
  if◌then◌else◌,
}

abbrev pub hyphen : Char
hyphen = "-"

-- unicode.IsSpace
unfoldable pub is_space : Char → Bool
is_space c =
    let n = code c in
    (leb 9 n && leb n 13)
    || (n == 32
        || (n == 0x85
            || (n == 0xa0
                || (n == 0x1680
                    || ((leb 0x2000 n && leb n 0x200a)
                        || (n == 0x2028
                            || (n == 0x2029 || (n == 0x202f || (n == 0x205f || n == 0x3000)))))))))

module _ (p : Char → Bool) where
  unfoldable pub trim_left : String → String
  trim_left [] = []
  trim_left (c ∷ s) = if p c then trim_left s else c ∷ s

  -- `c` before what is left of the rest, dropped with it if it is to go.
  unfoldable pub push_right : Char → String → String
  push_right c [] = if p c then [] else c ∷ []
  push_right c (d ∷ t) = c ∷ d ∷ t

  unfoldable pub trim_right : String → String
  unfolding push_right
  trim_right [] = []
  trim_right (c ∷ s) = push_right c (trim_right s)

  unfoldable pub trim : String → String
  unfolding trim_left trim_right
  trim s = trim_left (trim_right s)

-- The letter of the second text at the place of `c` in the first.
tr : String → String → Char → Char
tr [] _ c = c
tr (f ∷ fs) [] c = c
tr (f ∷ fs) (t ∷ ts) c = if code f == code c then t else tr fs ts c

unfoldable pub map_chars : (Char → Char) → String → String
map_chars f [] = []
map_chars f (c ∷ s) = f c ∷ map_chars f s

abbrev pub is_hyphen : Char → Bool
is_hyphen c = code c == b'-'

-- (r >= 'a' && r <= 'z') || (r >= '0' && r <= '9') || r == '-'
unfoldable pub is_label_char : Char → Bool
is_label_char c =
    let r = code c in (leb b'a' r && leb r b'z') || ((leb b'0' r && leb r b'9') || r == b'-')

abbrev pub is_separator : Char → Bool
is_separator c = let r = code c in r == b'_' || (r == b'.' || r == b' ')

-- The loop over the runes of the name.
unfoldable pub write_runes : String → String
unfolding is_label_char
write_runes [] = []
write_runes (c ∷ s) =
    let rest = write_runes s in
    if is_label_char c then c ∷ rest else if is_separator c then hyphen ∷ rest else rest

module _ (lower : Char → Char) where
  -- unicode.ToLower
  unfoldable pub to_lower_char : Char → Char
  unfolding tr
  to_lower_char c =
      if leb 128 (code c)
      then lower c
      else if leb b'A' (code c) && leb (code c) b'Z'
      then tr "ABCDEFGHIJKLMNOPQRSTUVWXYZ" "abcdefghijklmnopqrstuvwxyz" c
      else c

  unfoldable pub sanitise_subdomain : String → String
  unfolding is_space trim map_chars to_lower_char write_runes
  sanitise_subdomain name =
      let s = trim is_hyphen (write_runes (map_chars to_lower_char (trim is_space name))) in
      if s == "" then "service" else s
