-- ===== src/Store/Settings.antt =====
-- The string lists of internal/store/store.go (DDNS domains and scan subnets), and its slice helpers.
use homelab_homepage.Prelude.{
  String, ◌≡◌, refl, Bool, false, ◌||◌, not, List, [], ◌∷◌, ◌++◌, arith, ◌==◌, string_eq,
  if◌then◌else◌, contains, contains-append, contains-keep, keep, ℕ, ◌+◌, length, Bool-cases, inl,
  inr,
}

-- filterSlice
abbrev pub filter_slice {ℓ} : {A : Type ℓ} → (A → Bool) → List A → List A
filter_slice p xs = keep p xs

unfoldable pub remove_string : String → List String → List String
remove_string val xs = keep (λ v. not (v == val)) xs

unfoldable pub add_unique : String → List String → List String
add_unique val xs = if contains xs val then xs else xs ++ val ∷ []

-- No text is listed twice.
abbrev pub Unique : List String → Type 0
Unique [] = Unit {0}
Unique (x ∷ xs) = (contains xs x ≡ false) × Unique xs

contains_add :
    (val s : String) (xs : List String)
    → contains (add_unique val xs) s ≡ (val == s || contains xs s)
unfolding add_unique
contains_add val s xs = ground (arith, contains-append xs (val ∷ []) s)

contains_remove :
    (val s : String) (xs : List String)
    → contains (remove_string val xs) s ≡ (if val == s then false else contains xs s)
unfolding remove_string
contains_remove val s xs = ground (arith, contains-keep (λ v. not (v == val)) xs s)

Unique-append :
    (val : String) (xs : List String)
    → Unique xs
    → contains xs val ≡ false
    → Unique (xs ++ val ∷ [])
Unique-append val [] u h = (refl, tt)
Unique-append val (x ∷ xs) u h =
    (ground (arith, contains-append xs (val ∷ []) x), Unique-append val xs u.1 (ground arith))

Unique-keep : (p : String → Bool) (xs : List String) → Unique xs → Unique (keep p xs)
Unique-keep p [] u = tt
Unique-keep p (x ∷ xs) u = ground (arith, contains-keep p xs x, Unique-keep p xs u.1)

-- An addition to a list without repetitions leaves it without repetitions, with the text that was
-- added and all the texts that it had.
pub add_unique-set :
    (val : String) (xs : List String)
    → Unique xs
    → Unique (add_unique val xs)
      × ((s : String) → contains (add_unique val xs) s ≡ (val == s || contains xs s))
unfolding add_unique
add_unique-set val xs u = elim (Bool-cases (contains xs val)) [
  | inl e ↦ (rw e u, λ s. contains_add val s xs)
  | inr e ↦ (rw e (Unique-append val xs u e), λ s. contains_add val s xs)
]

-- `removeString` leaves no occurrence of its argument, and every other text.
pub remove_string-set :
    (val : String) (xs : List String)
    → Unique xs
    → Unique (remove_string val xs)
      × ((s : String)
          → contains (remove_string val xs) s ≡ (if val == s then false else contains xs s))
unfolding remove_string
remove_string-set val xs u = (Unique-keep _ xs u, λ s. contains_remove val s xs)

pub count : String → List String → ℕ
count val [] = 0
count val (x ∷ xs) = (if x == val then 1 else 0) + count val xs

-- All occurrences go: a list without the text is as long as the old one less their number.
pub length-remove_string :
    (val : String) (xs : List String) → length (remove_string val xs) + count val xs ≡ length xs
unfolding remove_string count
length-remove_string val [] = refl
length-remove_string val (x ∷ xs) = ground (arith, length-remove_string val xs)
