-- ===== src/Web/Favicons/Again.antt =====
-- internal/web/static.go: which ids have a file, and what a second request gets.
use Prim.Native.String.{[], ◌∷◌}
use homelab_homepage.Prelude.{
  ℕ, ◌+◌, ◌≤◌, String, ◌<>◌, true, false, Option, none, some, ◌==◌, nat_eq, string_eq, ◌≡◌, refl,
  arith, ap, ◌∙◌, Bool-cases, inl, inr, ℕ_discrete, subst, sym,
}
use homelab_homepage.Go.Text.{has_byte, contains_text, cut, strip_prefix}
use homelab_homepage.Store.Icons.{safe_icon_path, read_icon}
use homelab_homepage.Store.Icons.Paths.{IsName, safe_icon_path-name}
use homelab_homepage.Web.TtlCache.{TtlCache, get, set}
use homelab_homepage.Web.TtlCache.Bounds.{get-set}
use homelab_homepage.Web.Favicons.{
  all_hex, is_valid_icon_id, FaviconEntry, Answer, Favicons, hour, negative_ttl, fetched, from_disk,
  uncached, get_favicon,
}

all_hex-slash : (s : String) → all_hex s ≡ true → has_byte b'/' s ≡ false
unfolding all_hex has_byte
all_hex-slash [] h = refl
all_hex-slash (c ∷ s) h = ground (arith, all_hex-slash s)

all_hex-back : (s : String) → all_hex s ≡ true → has_byte b'\\' s ≡ false
unfolding all_hex has_byte
all_hex-back [] h = refl
all_hex-back (c ∷ s) h = ground (arith, all_hex-back s)

all_hex-dot : (s : String) → all_hex s ≡ true → has_byte b'.' s ≡ false
unfolding all_hex has_byte
all_hex-dot [] h = refl
all_hex-dot (c ∷ s) h = ground (arith, all_hex-dot s)

cut-dots : (s : String) → has_byte b'.' s ≡ false → cut ".." s ≡ none
unfolding cut has_byte strip_prefix
cut-dots [] h = ground arith
cut-dots (c ∷ s) h = ground (arith, cut-dots s)

no_dots : (s : String) → has_byte b'.' s ≡ false → contains_text s ".." ≡ false
unfolding contains_text
no_dots s h = ground (arith, cut-dots s h)

dot_there : has_byte b'.' "." ≡ true
unfolding has_byte ℕ_discrete
dot_there = refl

pub is_valid_icon_id-IsName : (id : String) → is_valid_icon_id id ≡ true → IsName id
unfolding is_valid_icon_id
is_valid_icon_id-IsName id h =
    let hex : all_hex id ≡ true = ground (arith, h) in
    let dot = all_hex-dot id hex in
    (
      all_hex-slash id hex,
      all_hex-back id hex,
      no_dots id dot,
      ground (arith, h),
      ground (arith, dot, dot_there, λ (e : id ≡ "."). ap (has_byte b'.') e),
    )

pub valid_icon-path :
    (icon_dir id : String)
    → is_valid_icon_id id ≡ true
    → safe_icon_path icon_dir id ≡ some (icon_dir <> ("/" <> id))
valid_icon-path icon_dir id h = safe_icon_path-name icon_dir id (is_valid_icon_id-IsName id h)

-- The answer is what the cache is set to, for at least fifteen minutes.
abbrev IsRemembered : ℕ → String → Answer × Favicons → Type 0
IsRemembered now id (a, f) =
    (ttl : ℕ) × (c : TtlCache FaviconEntry) × (f.cache ≡ set now id a ttl c) × (negative_ttl ≤ ttl)

module _ (icon_dir : String) (target_of : String → String) (fetch : String → String) (now : ℕ) where
  fetched-IsRemembered :
      (id content : String) (f : Favicons)
      → IsRemembered now id (fetched icon_dir target_of fetch now id content f)
  fetched-IsRemembered id content f = elim (Bool-cases (content == "")) [
    | inl e ↦ rw e (negative_ttl, f.cache, refl, omega arith)
    | inr e ↦ rw e (hour, f.cache, refl, omega arith)
  ]

  from_disk-IsRemembered :
      (id target : String) (o : Option String) (f : Favicons)
      → IsRemembered now id (from_disk icon_dir target_of fetch now id target o f)
  from_disk-IsRemembered id target none f = fetched-IsRemembered id (fetch target) f
  from_disk-IsRemembered id target (some content) f = elim (Bool-cases (content == "")) [
    | inl e ↦ rw e (fetched-IsRemembered id (fetch target) f)
    | inr e ↦ rw e (hour, f.cache, refl, omega arith)
  ]

  uncached-IsRemembered :
      (id : String) (f : Favicons)
      → IsRemembered now id (uncached icon_dir target_of fetch now id f)
  uncached-IsRemembered id f = elim (Bool-cases (target_of id == "")) [
    | inl e ↦ rw e (negative_ttl, f.cache, refl, omega arith)
    | inr e ↦ rw e (from_disk-IsRemembered id (target_of id) (read_icon icon_dir id f.disk) f)
  ]

get_favicon-IsRemembered :
    (icon_dir : String) (target_of fetch : String → String) (now : ℕ) (id : String) (f : Favicons)
    → is_valid_icon_id id ≡ true
    → (get now id f.cache).0 ≡ none
    → IsRemembered now id (get_favicon icon_dir target_of fetch now id f)
unfolding get_favicon
get_favicon-IsRemembered icon_dir target_of fetch now id f valid miss =
    let c = (get now id f.cache).1 in
    let same : get_favicon icon_dir target_of fetch now id f
        ≡ uncached icon_dir target_of fetch now id (record { cache = c; disk = f.disk }) =
      ground (arith, valid, miss) in
    subst (IsRemembered now id) (sym same) (uncached-IsRemembered icon_dir target_of fetch now id _)

-- For a valid id that is not in the cache, a second request within fifteen minutes gets the same
-- answer as the first, whatever the target and the network are by then.
pub get_favicon-again :
    (icon_dir : String) (target_of fetch target_of' fetch' : String → String) (now later : ℕ)
    (id : String) (f : Favicons)
    → is_valid_icon_id id ≡ true
    → (get now id f.cache).0 ≡ none
    → later ≤ now + negative_ttl
    → let (a, after) = get_favicon icon_dir target_of fetch now id f in
      (get_favicon icon_dir target_of' fetch' later id after).0 ≡ a
get_favicon-again icon_dir target_of fetch target_of' fetch' now later id f valid miss soon =
    let (ttl, c, e, long) = get_favicon-IsRemembered icon_dir target_of fetch now id f valid miss in
    let a = (get_favicon icon_dir target_of fetch now id f).0 in
    let found : (get later id (get_favicon icon_dir target_of fetch now id f).1.cache).0 ≡ some a =
      ap (λ k. (get later id k).0) e ∙ get-set now later ttl id a c ∙ ground (arith, soon, long) in
    (unfold get_favicon in ground (arith, valid, found))
