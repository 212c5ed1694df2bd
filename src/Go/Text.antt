-- ===== src/Go/Text.antt =====
-- `strings` on texts. A text is its code points: a search for an ASCII text is the same on the
-- bytes of UTF-8.
use Prim.Native.Char.{Char, code}
use Prim.Native.String.{[], ◌∷◌, count}
use Prim.Native.String.count
use mathlib.Core.Option
use text.Mathlib.TextLemmas.{nil-append, cons-append, length-append}
use homelab_homepage.Prelude.{
  ℕ, String, ◌<>◌, ◌≡◌, ◌≢◌, refl, Bool, true, false, ◌||◌, Option, none, some, arith, ◌==◌,
  string_eq, nat_eq, if◌then◌else◌, ltb, ap, inl, inr, Option-cases,
}

-- `<` on strings, which is by bytes: in UTF-8 they have the order of the code points.
unfoldable pub text_less : String → String → Bool
text_less [] [] = false
text_less [] (d ∷ t) = true
text_less (c ∷ s) [] = false
text_less (c ∷ s) (d ∷ t) = if code c == code d then text_less s t else ltb (code c) (code d)

-- strings.TrimPrefix and strings.HasPrefix, by the rest after the prefix.
unfoldable pub strip_prefix : String → String → Option String
strip_prefix [] s = some s
strip_prefix (p ∷ ps) [] = none
strip_prefix (p ∷ ps) (c ∷ s) = if code p == code c then strip_prefix ps s else none

abbrev pub is_some {ℓ} : {A : Type ℓ} → Option A → Bool
is_some none = false
is_some (some _) = true

abbrev pub or_else {ℓ} : {A : Type ℓ} → Option A → A → A
or_else none d = d
or_else (some a) d = a

unfoldable pub has_prefix : String → String → Bool
unfolding strip_prefix
has_prefix s prefix = is_some (strip_prefix prefix s)

unfoldable pub trim_prefix : String → String → String
unfolding strip_prefix
trim_prefix s prefix = or_else (strip_prefix prefix s) s

-- strings.TrimSuffix and strings.HasSuffix, by the text before the suffix.
unfoldable pub strip_suffix : String → String → Option String
strip_suffix suffix [] = if [] == suffix then some [] else none
strip_suffix suffix (c ∷ s) =
    let rest = strip_suffix suffix s in
    if c ∷ s == suffix then some [] else Option.map (λ t. c ∷ t) rest

unfoldable pub has_suffix : String → String → Bool
unfolding strip_suffix
has_suffix s suffix = is_some (strip_suffix suffix s)

unfoldable pub trim_suffix : String → String → String
unfolding strip_suffix
trim_suffix s suffix = or_else (strip_suffix suffix s) s

-- The text holds the code point `b`: strings.IndexByte(s, b) >= 0.
unfoldable pub has_byte : ℕ → String → Bool
has_byte b [] = false
has_byte b (c ∷ s) = code c == b || has_byte b s

-- The parts before and after the last `b`: strings.LastIndexByte.
unfoldable pub cut_last : ℕ → String → Option (String × String)
cut_last b [] = none
cut_last b (c ∷ s) = elim (cut_last b s) [
  | some (x, y) ↦ some (c ∷ x, y)
  | none ↦ if code c == b then some ([], s) else none
]

-- strings.Cut: the parts before and after the first `sep`.
unfoldable pub cut : String → String → Option (String × String)
unfolding strip_prefix
cut sep [] = elim (strip_prefix sep []) [ none ↦ none | some r ↦ some ([], r) ]
cut sep (c ∷ s) =
    let later = Option.map (λ (x, y). (c ∷ x, y)) (cut sep s) in
    elim (strip_prefix sep (c ∷ s)) [ some r ↦ some ([], r) | none ↦ later ]

-- strings.SplitN(s, sep, 2)[0]
abbrev pub before_sep : String → String → String
before_sep sep s = elim (cut sep s) [ some (a, b) ↦ a | none ↦ s ]

-- strings.Contains
unfoldable pub contains_text : String → String → Bool
unfolding cut
contains_text s sub = is_some (cut sub s)

pub strip_prefix-append : (p s : String) → strip_prefix p (p <> s) ≡ some s
unfolding strip_prefix
strip_prefix-append [] s = rw nil-append
strip_prefix-append (c ∷ p) s = rw cons-append (ground (arith, strip_prefix-append p s))

pub cut_last-none : (b : ℕ) (s : String) → has_byte b s ≡ false → cut_last b s ≡ none
unfolding has_byte cut_last
cut_last-none b [] h = refl
cut_last-none b (c ∷ s) h = ground (arith, cut_last-none b s)

pub cut_last-append :
    (b : ℕ) (x : String) (c : Char) (y : String)
    → code c ≡ b
    → has_byte b y ≡ false
    → cut_last b (x <> (c ∷ y)) ≡ some (x, y)
unfolding cut_last
cut_last-append b [] c y e h = rw nil-append (ground (arith, cut_last-none b y h))
cut_last-append b (d ∷ x) c y e h = rw cons-append (ground (arith, cut_last-append b x c y e h))

-- A text is not its own proper part.
longer : (c : Char) (x s : String) → c ∷ (x <> s) ≢ s
longer c x s e = omega (arith, ap count e, count.cons c (x <> s), length-append x s)

pub strip_suffix-append : (x s : String) → strip_suffix s (x <> s) ≡ some x
unfolding strip_suffix
strip_suffix-append [] [] = ground arith
strip_suffix-append [] (c ∷ s) = rw nil-append (ground arith)
strip_suffix-append (c ∷ x) s =
    rw cons-append (ground (arith, strip_suffix-append x s, longer c x s))

pub trim_prefix-append : (p s : String) → trim_prefix (p <> s) p ≡ s
unfolding trim_prefix
trim_prefix-append p s = ground (arith, strip_prefix-append p s)

pub has_suffix-append : (x s : String) → has_suffix (x <> s) s ≡ true
unfolding has_suffix
has_suffix-append x s = ground (arith, strip_suffix-append x s)

pub trim_suffix-append : (x s : String) → trim_suffix (x <> s) s ≡ x
unfolding trim_suffix
trim_suffix-append x s = ground (arith, strip_suffix-append x s)

pub has_byte-append : (b : ℕ) (x y : String) → has_byte b (x <> y) ≡ (has_byte b x || has_byte b y)
unfolding has_byte
has_byte-append b [] y = rw nil-append
has_byte-append b (c ∷ x) y = rw cons-append (ground (arith, has_byte-append b x y))

-- A text without a byte of the prefix is kept whole, and likewise for a suffix.
strip_prefix-byte :
    (b : ℕ) (p s r : String) → strip_prefix p s ≡ some r → has_byte b p ≡ true → has_byte b s ≡ true
unfolding strip_prefix has_byte
strip_prefix-byte b [] s r e h = ground arith
strip_prefix-byte b (x ∷ p) [] r e h = ground arith
strip_prefix-byte b (x ∷ p) (c ∷ s) r e h = ground (arith, strip_prefix-byte b p s r)

pub trim_prefix-absent :
    (b : ℕ) (p s : String) → has_byte b p ≡ true → has_byte b s ≡ false → trim_prefix s p ≡ s
unfolding trim_prefix
trim_prefix-absent b p s h absent = elim (Option-cases (strip_prefix p s)) [
  | inl none_left ↦ rw none_left refl
  | inr (r, left) ↦ ground (arith, strip_prefix-byte b p s r left h)
]

strip_suffix-byte :
    (b : ℕ) (p s r : String) → strip_suffix p s ≡ some r → has_byte b p ≡ true → has_byte b s ≡ true
unfolding strip_suffix has_byte
strip_suffix-byte b p [] r e h = ground (arith, λ (q : [] ≡ p). ap (has_byte b) q)
strip_suffix-byte b p (c ∷ s) r e h = elim (Option-cases (strip_suffix p s)) [
  | inl none_left ↦ ground (arith, λ (q : c ∷ s ≡ p). ap (has_byte b) q)
  | inr (t, left) ↦ ground (arith, strip_suffix-byte b p s t)
]

pub trim_suffix-absent :
    (b : ℕ) (p s : String) → has_byte b p ≡ true → has_byte b s ≡ false → trim_suffix s p ≡ s
unfolding trim_suffix
trim_suffix-absent b p s h absent = elim (Option-cases (strip_suffix p s)) [
  | inl none_left ↦ rw none_left refl
  | inr (r, left) ↦ ground (arith, strip_suffix-byte b p s r left h)
]

pub strip_prefix-common :
    (c : Char) (p x y : String) → strip_prefix (c ∷ p) ((c ∷ x) <> y) ≡ strip_prefix p (x <> y)
unfolding strip_prefix
strip_prefix-common c p x y = rw cons-append (ground arith)

pub strip_prefix-differ :
    (a c : Char) (p x y : String) → code a ≢ code c → strip_prefix (a ∷ p) ((c ∷ x) <> y) ≡ none
unfolding strip_prefix
strip_prefix-differ a c p x y ne = rw cons-append (ground arith)

cut-found : (sep s r : String) → strip_prefix sep s ≡ some r → cut sep s ≡ some ([], r)
unfolding cut
cut-found sep [] r e = ground arith
cut-found sep (c ∷ s) r e = ground arith

pub cut-append :
    (b : ℕ) (c : Char) (sep x y : String)
    → code c ≡ b
    → has_byte b x ≡ false
    → cut (c ∷ sep) (x <> ((c ∷ sep) <> y)) ≡ some (x, y)
unfolding cut has_byte strip_prefix
cut-append b c sep [] y e h =
    rw nil-append (cut-found (c ∷ sep) _ y (strip_prefix-append (c ∷ sep) y))
cut-append b c sep (d ∷ x) y e h = rw cons-append (ground (arith, cut-append b c sep x y))
