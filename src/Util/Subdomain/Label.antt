-- ===== src/Util/Subdomain/Label.antt =====
-- internal/util/util.go: `SanitiseSubdomain` and labels.
use Prim.Native.Char.{Char, code}
use Prim.Native.String.{[], ◌∷◌}
use text.Mathlib.TextEquality.{eq_iff}
use homelab_homepage.Prelude.{
  String, ◌≡◌, ◌≢◌, refl, Bool, true, false, ◌&&◌, leb, arith, ◌==◌, string_eq, nat_eq,
  if◌then◌else◌, Bool-cases, inl, inr, string_dec, ℕ_discrete,
}
use homelab_homepage.Util.Subdomain.{
  is_space, trim_left, trim_right, push_right, trim, map_chars, is_hyphen, is_label_char,
  write_runes, to_lower_char, sanitise_subdomain,
}

unfoldable pub all_chars : (Char → Bool) → String → Bool
all_chars p [] = true
all_chars p (c ∷ s) = p c && all_chars p s

unfoldable pub first_is : (Char → Bool) → String → Bool
first_is p [] = false
first_is p (c ∷ s) = p c

unfoldable pub last_is : (Char → Bool) → String → Bool
last_is p [] = false
last_is p (c ∷ []) = p c
last_is p (c ∷ d ∷ s) = last_is p (d ∷ s)

-- Letters, digits and hyphens, with no hyphen at the ends, and not empty.
pub record IsLabel (s : String) : Type 0 where
  pub chars : all_chars is_label_char s ≡ true
  pub first : first_is is_hyphen s ≡ false
  pub last : last_is is_hyphen s ≡ false
  pub filled : s ≢ ""

if_true : (s : String) → s ≡ "" → (if s == "" then "service" else s) ≡ "service"
if_true s e = ground arith

if_false : (s : String) → s ≢ "" → (if s == "" then "service" else s) ≡ s
if_false s e = ground arith

module _ (p : Char → Bool) where
  first_is-trim_left : (s : String) → first_is p (trim_left p s) ≡ false
  unfolding first_is trim_left
  first_is-trim_left [] = refl
  first_is-trim_left (c ∷ s) = ground (arith, first_is-trim_left s)

  last_is-trim_left : (s : String) → last_is p s ≡ false → last_is p (trim_left p s) ≡ false
  unfolding last_is trim_left
  last_is-trim_left [] h = refl
  last_is-trim_left (c ∷ []) h = ground arith
  last_is-trim_left (c ∷ d ∷ s) h = ground (arith, last_is-trim_left (d ∷ s))

  last_is-push_right :
      (c : Char) (t : String) → last_is p t ≡ false → last_is p (push_right p c t) ≡ false
  unfolding last_is push_right
  last_is-push_right c [] h = elim (Bool-cases (p c)) [
    | inl e ↦ rw e
    | inr e ↦ rw (e, if◌then◌else◌) e
  ]
  last_is-push_right c (d ∷ t) h = h

  last_is-trim_right : (s : String) → last_is p (trim_right p s) ≡ false
  unfolding trim_right
  last_is-trim_right [] = unfold last_is in refl
  last_is-trim_right (c ∷ s) = last_is-push_right c (trim_right p s) (last_is-trim_right s)

module _ (q p : Char → Bool) where
  all_chars-trim_left : (s : String) → all_chars q s ≡ true → all_chars q (trim_left p s) ≡ true
  unfolding all_chars trim_left
  all_chars-trim_left [] h = refl
  all_chars-trim_left (c ∷ s) h = ground (arith, all_chars-trim_left s)

  all_chars-push_right :
      (c : Char) (t : String)
      → q c ≡ true
      → all_chars q t ≡ true
      → all_chars q (push_right p c t) ≡ true
  unfolding all_chars push_right
  all_chars-push_right c [] h k = elim (Bool-cases (p c)) [
    | inl e ↦ rw e
    | inr e ↦ rw (e, if◌then◌else◌) (ground arith)
  ]
  all_chars-push_right c (d ∷ t) h k = ground arith

  all_chars-trim_right : (s : String) → all_chars q s ≡ true → all_chars q (trim_right p s) ≡ true
  unfolding all_chars trim_right
  all_chars-trim_right [] h = refl
  all_chars-trim_right (c ∷ s) h =
      ground (arith, all_chars-push_right c (trim_right p s), all_chars-trim_right s)

all_chars-write_runes : (s : String) → all_chars is_label_char (write_runes s) ≡ true
unfolding all_chars write_runes
all_chars-write_runes [] = refl
all_chars-write_runes (c ∷ s) = ground (arith, all_chars-write_runes s)

IsLabel-trim :
    (s : String)
    → all_chars is_label_char s ≡ true
    → trim is_hyphen s ≢ ""
    → IsLabel (trim is_hyphen s)
unfolding trim
IsLabel-trim s h ne = record {
  chars =
      all_chars-trim_left is_label_char is_hyphen _
        (all_chars-trim_right is_label_char is_hyphen s h);
  first = first_is-trim_left is_hyphen _;
  last = last_is-trim_left is_hyphen _ (last_is-trim_right is_hyphen s);
  filled = ne;
}

IsLabel-service : IsLabel "service"
unfolding all_chars first_is last_is is_label_char ℕ_discrete
IsLabel-service = record {
  chars = refl;
  first = refl;
  last = refl;
  filled = λ e. ground (arith, eq_iff "service" "");
}

module _ (lower : Char → Char) where
  -- Every text is turned into one that is not empty, has only lower case letters, digits and
  -- hyphens, and neither begins nor ends with a hyphen, whatever the lower case of characters
  -- beyond ASCII is.
  pub sanitise_subdomain-IsLabel : (name : String) → IsLabel (sanitise_subdomain lower name)
  unfolding sanitise_subdomain
  sanitise_subdomain-IsLabel name =
      let w = write_runes (map_chars (to_lower_char lower) (trim is_space name)) in
      elim (string_dec (trim is_hyphen w) "") [
        | yes e ↦ rw (if_true (trim is_hyphen w) e) IsLabel-service
        | no ne ↦ rw (if_false (trim is_hyphen w) ne) (
            IsLabel-trim w
              (all_chars-write_runes (map_chars (to_lower_char lower) (trim is_space name))) ne)
      ]

-- A label is a fixed point of each step.
trim_left_id : (p : Char → Bool) (s : String) → first_is p s ≡ false → trim_left p s ≡ s
unfolding trim_left first_is
trim_left_id p [] h = refl
trim_left_id p (c ∷ s) h = ground arith

trim_right_id : (p : Char → Bool) (s : String) → last_is p s ≡ false → trim_right p s ≡ s
unfolding trim_right last_is
trim_right_id p [] h = refl
trim_right_id p (c ∷ []) h = rw (h, trim_right)
trim_right_id p (c ∷ d ∷ s) h = rw (trim_right_id p (d ∷ s) h, trim_right)

-- A character of a label is no space, and lower case leaves it alone.
label_char_bounds :
    (c : Char)
    → is_label_char c ≡ true
    → (is_space c ≡ false)
      × (leb 128 (code c) ≡ false)
      × ((leb b'A' (code c) && leb (code c) b'Z') ≡ false)
unfolding is_label_char is_space
label_char_bounds c h = ground arith

first_is_of_all :
    (p q : Char → Bool) (s : String)
    → ((c : Char) → q c ≡ true → p c ≡ false)
    → all_chars q s ≡ true
    → first_is p s ≡ false
unfolding first_is all_chars
first_is_of_all p q [] h a = refl
first_is_of_all p q (c ∷ s) h a = ground (arith, h c)

last_is_of_all :
    (p q : Char → Bool) (s : String)
    → ((c : Char) → q c ≡ true → p c ≡ false)
    → all_chars q s ≡ true
    → last_is p s ≡ false
unfolding last_is all_chars
last_is_of_all p q [] h a = refl
last_is_of_all p q (c ∷ []) h a = ground (arith, h c)
last_is_of_all p q (c ∷ d ∷ s) h a = last_is_of_all p q (d ∷ s) h (ground arith)

trim_id : (p : Char → Bool) (s : String) → first_is p s ≡ false → last_is p s ≡ false → trim p s ≡ s
unfolding trim
trim_id p s f l = rw (trim_right_id p s l) (trim_left_id p s f)

trim_space_id : (s : String) → all_chars is_label_char s ≡ true → trim is_space s ≡ s
trim_space_id s a =
    let no_space : (c : Char) → is_label_char c ≡ true → is_space c ≡ false =
      λ c h. (label_char_bounds c h).0 in
    trim_id is_space s (first_is_of_all is_space is_label_char s no_space a)
      (last_is_of_all is_space is_label_char s no_space a)

write_runes_id : (s : String) → all_chars is_label_char s ≡ true → write_runes s ≡ s
unfolding write_runes all_chars
write_runes_id [] a = refl
write_runes_id (c ∷ s) a = ground (arith, write_runes_id s)

module _ (lower : Char → Char) where
  lower_id : (s : String) → all_chars is_label_char s ≡ true → map_chars (to_lower_char lower) s ≡ s
  unfolding map_chars to_lower_char all_chars
  lower_id [] a = refl
  lower_id (c ∷ s) a = ground (arith, lower_id s, label_char_bounds c)

  -- A text that is not empty, has only lower case letters, digits and hyphens, and neither begins
  -- nor ends with a hyphen is kept as it is, however long it is.
  pub sanitise_subdomain_label : (s : String) → IsLabel s → sanitise_subdomain lower s ≡ s
  unfolding sanitise_subdomain
  sanitise_subdomain_label s v =
      rw
        (
          trim_space_id s v.chars,
          lower_id s v.chars,
          write_runes_id s v.chars,
          trim_id is_hyphen s v.first v.last,
        )
        (if_false s v.filled)

  -- So a second pass changes nothing.
  pub sanitise_subdomain_idem :
      (name : String)
      → sanitise_subdomain lower (sanitise_subdomain lower name) ≡ sanitise_subdomain lower name
  sanitise_subdomain_idem name = sanitise_subdomain_label _ (sanitise_subdomain-IsLabel lower name)
