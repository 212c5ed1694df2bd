-- ===== src/Web/Gzip.antt =====
-- internal/web/server.go and static.go: the choice of the compression of a response. The headers have
-- one value each; what is written goes to the compressor or to the connection.
pub mod Once
use homelab_homepage.Prelude.{
  String, ◌<>◌, Bool, true, false, ◌||◌, ◌&&◌, not, Option, none, some, List, [], ◌∷◌, ◌++◌, ◌==◌,
  ◌!=◌, string_eq, if◌then◌else◌,
}
use homelab_homepage.Go.Map.{Map, lookup, insert, erase}
use homelab_homepage.Go.Text.{or_else, before_sep}
use homelab_homepage.Util.Subdomain.{trim, is_space}

-- A part of what was sent, and whether the compressor got it.
pub data Sent : Type 0 where
  header : Map String → Sent
  compressed : String → Sent
  plain : String → Sent

pub record GzipWriter : Type 0 where
  pub headers : Map String
  pub active : Bool
  pub decided : Bool
  pub sent : List Sent

-- A new writer, for headers that are set already.
abbrev pub new_writer : Map String → GzipWriter
new_writer headers = record { headers = headers; active = false; decided = false; sent = [] }

abbrev pub get_header : String → Map String → String
get_header key headers = or_else (lookup key headers) ""

unfoldable pub sniff : GzipWriter → GzipWriter
sniff g =
    if g.decided
    then g
    else if get_header "Content-Encoding" g.headers != ""
    then record g { decided = true }
    else record g {
      decided = true;
      active = true;
      headers =
          erase "Content-Length"
            (insert "Vary" "Accept-Encoding" (insert "Content-Encoding" "gzip" g.headers));
    }

-- The headers go out as they are after `sniff`.
unfoldable pub write_header : GzipWriter → GzipWriter
write_header g = let s = sniff g in record s { sent = s.sent ++ header s.headers ∷ [] }

unfoldable pub write : String → GzipWriter → GzipWriter
write b g =
    let s = sniff g in
    record s { sent = s.sent ++ (if s.active then compressed b else plain b) ∷ [] }

-- strings.SplitSeq(header, ",") in `acceptsEncoding`, the parts as a list; `fold` brings the letters
-- of a text to one case, as strings.EqualFold compares them.
unfoldable pub accepts_encoding : (String → String) → List String → String → Bool
accepts_encoding fold [] enc = false
accepts_encoding fold (part ∷ parts) enc =
    fold (trim is_space (before_sep ";" part)) == fold enc || accepts_encoding fold parts enc
