-- ===== src/Web/Gzip/Once.antt =====
-- internal/web/server.go: a response is compressed as a whole or not at all.
use mathlib.Core.List.{append_assoc, append-nil}
use homelab_homepage.Prelude.{
  String, Bool, true, false, none, some, List, [], ◌∷◌, ◌++◌, ◌==◌, string_eq, string_dec,
  if◌then◌else◌, ◌≡◌, ◌≢◌, refl, arith, ap, ◌∙◌, differ, subst, sym,
}
use homelab_homepage.Go.Map.{Map, lookup, insert, lookup-insert, lookup-erase}
use homelab_homepage.Web.Gzip.{
  Sent, header, compressed, plain, GzipWriter, new_writer, get_header, sniff, write_header, write,
}

-- What a handler does with the writer.
pub data Op : Type 0 where
  write_header_op : Op
  write_op : String → Op

abbrev pub apply : Op → GzipWriter → GzipWriter
apply write_header_op g = write_header g
apply (write_op b) g = write b g

unfoldable pub run : List Op → GzipWriter → GzipWriter
run [] g = g
run (o ∷ os) g = run os (apply o g)

-- The part that an operation sends, once the choice is made.
abbrev pub sent_by : Bool → Map String → Op → Sent
sent_by active headers write_header_op = header headers
sent_by active headers (write_op b) = if active then compressed b else plain b

abbrev pub all_sent : Bool → Map String → List Op → List Sent
all_sent active headers [] = []
all_sent active headers (o ∷ os) = sent_by active headers o ∷ all_sent active headers os

apply-decided :
    (o : Op) (g : GzipWriter)
    → g.decided ≡ true
    → apply o g ≡ record g { sent = g.sent ++ sent_by g.active g.headers o ∷ [] }
unfolding write_header write sniff
apply-decided write_header_op g d = ground (arith, d)
apply-decided (write_op b) g d = ground (arith, d)

run-decided :
    (os : List Op) (g : GzipWriter)
    → g.decided ≡ true
    → run os g ≡ record g { sent = g.sent ++ all_sent g.active g.headers os }
unfolding run
run-decided [] g d = ap (λ l. record g { sent = l }) (sym (append-nil g.sent))
run-decided (o ∷ os) g d = rw (apply-decided o g d) (
    run-decided os (record g { sent = g.sent ++ sent_by g.active g.headers o ∷ [] }) d
    ∙ ap (λ l. record g { sent = l })
        (append_assoc g.sent (sent_by g.active g.headers o ∷ []) (all_sent g.active g.headers os)))

-- The first operation makes the choice.
apply-sniff : (o : Op) (g : GzipWriter) → apply o g ≡ apply o (sniff g)
unfolding write_header write sniff
apply-sniff write_header_op g = ground arith
apply-sniff (write_op b) g = ground arith

sniff-decided : (g : GzipWriter) → (sniff g).decided ≡ true
unfolding sniff
sniff-decided g = ground arith

sniff-new :
    (headers : Map String)
    → ((sniff (new_writer headers)).active ≡ (get_header "Content-Encoding" headers == ""))
      × ((sniff (new_writer headers)).sent ≡ [])
unfolding sniff
sniff-new headers = ground arith

abbrev content_length : String
content_length = "Content-Length"

abbrev vary : String
vary = "Vary"

encoding-length : content_length ≢ "Content-Encoding"
unfolding string_dec
encoding-length = differ content_length "Content-Encoding" refl

encoding-vary : vary ≢ "Content-Encoding"
unfolding string_dec
encoding-vary = differ vary "Content-Encoding" refl

sniff-headers :
    (h : Map String)
    → let g = sniff (new_writer h) in
      (g.active ≡ true
        → (lookup "Content-Encoding" g.headers ≡ some "gzip")
          × (lookup content_length g.headers ≡ none))
      × (g.active ≡ false → g.headers ≡ h)
unfolding sniff
sniff-headers h =
    let packed = insert "Vary" "Accept-Encoding" (insert "Content-Encoding" "gzip" h) in
    ground (
      arith,
      encoding-length,
      encoding-vary,
      lookup-erase "Content-Encoding" content_length packed,
      lookup-erase content_length content_length packed,
      lookup-insert "Content-Encoding" "Vary" "Accept-Encoding"
          (insert "Content-Encoding" "gzip" h),
      lookup-insert "Content-Encoding" "Content-Encoding" "gzip" h,
    )

run-sniff : (o : Op) (os : List Op) (g : GzipWriter) → run (o ∷ os) g ≡ run (o ∷ os) (sniff g)
unfolding run
run-sniff o os g = ap (run os) (apply-sniff o g)

-- How a response looks after the operations `os` on headers `h`.
abbrev pub IsOnce : Map String → List Op → GzipWriter → Type 0
IsOnce h os g =
    (g.active ≡ (get_header "Content-Encoding" h == ""))
    × (g.sent ≡ all_sent g.active g.headers os)
    × (g.active ≡ true
        → (lookup "Content-Encoding" g.headers ≡ some "gzip")
          × (lookup "Content-Length" g.headers ≡ none))
    × (g.active ≡ false → g.headers ≡ h)

-- After at least one operation on a new writer, everything is compressed or nothing is, by whether
-- the headers had no encoding at first, and all headers are sent alike; with compression the
-- encoding is gzip and no length is given, and without it the headers are the ones from before.
pub run-new-IsOnce :
    (h : Map String) (o : Op) (os : List Op) → IsOnce h (o ∷ os) (run (o ∷ os) (new_writer h))
run-new-IsOnce h o os =
    let s = sniff (new_writer h) in
    let (active, none_sent) = sniff-new h in
    let (yes_headers, no_headers) = sniff-headers h in
    let all = all_sent s.active s.headers (o ∷ os) in
    let whole : run (o ∷ os) (new_writer h) ≡ record s { sent = all } =
      run-sniff o os (new_writer h)
      ∙ run-decided (o ∷ os) s (sniff-decided (new_writer h))
      ∙ ap (λ l. record s { sent = l ++ all }) none_sent in
    subst (IsOnce h (o ∷ os)) (sym whole) (active, refl, yes_headers, no_headers)
