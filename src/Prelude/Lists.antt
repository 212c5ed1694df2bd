-- ===== src/Prelude/Lists.antt =====
-- Lists measured by native numbers, and Boolean filters.
use Prim.Native.Nat.{ℕ, suc, ◌+◌, ◌≤◌}
use mathlib.Core.Path.{◌≡◌, refl}
use mathlib.Core.Bool.{Bool, true, false, ◌||◌}
use mathlib.Core.List.{List, [], ◌∷◌, ◌++◌}
use mathlib.Core.Logic.{inl, inr}
use mathlib.Core.Option.{Option, none, some}
use native.Mathlib.Omega.{arith}
use homelab_homepage.Prelude.Equality.{Eq, Bool-cases, ◌==◌, if◌then◌else◌}

module _ {ℓ} {A : Type ℓ} where
  abbrev pub length : List A → ℕ
  length [] = 0
  length (x ∷ xs) = suc (length xs)

  pub length-append : (xs ys : List A) → length (xs ++ ys) ≡ length xs + length ys
  length-append [] ys = omega arith
  length-append (x ∷ xs) ys = omega (arith, length-append xs ys)

  -- The elements that pass a test, in order.
  abbrev pub keep : (A → Bool) → List A → List A
  keep p [] = []
  keep p (x ∷ xs) = let rest = keep p xs in if p x then x ∷ rest else rest

  abbrev pub any : (A → Bool) → List A → Bool
  any p [] = false
  any p (x ∷ xs) = p x || any p xs

  abbrev pub find : (A → Bool) → List A → Option A
  find p [] = none
  find p (x ∷ xs) = let rest = find p xs in if p x then some x else rest

  pub length-keep : (p : A → Bool) (xs : List A) → length (keep p xs) ≤ length xs
  length-keep p [] = omega arith
  length-keep p (x ∷ xs) = ground (arith, length-keep p xs)

module _ {ℓ} {A : Type ℓ} ⦃e : Eq A⦄ where
  abbrev pub contains : List A → A → Bool
  contains [] a = false
  contains (x ∷ xs) a = x == a || contains xs a

  pub contains-append :
      (xs ys : List A) (a : A) → contains (xs ++ ys) a ≡ (contains xs a || contains ys a)
  contains-append [] ys a = refl
  contains-append (x ∷ xs) ys a = ground (arith, contains-append xs ys a)

  pub contains-keep :
      (p : A → Bool) (xs : List A) (a : A)
      → contains (keep p xs) a ≡ (if p a then contains xs a else false)
  contains-keep p [] a = ground arith
  contains-keep p (x ∷ xs) a = ground (arith, contains-keep p xs a)

  pub any-mem :
      (p : A → Bool) (xs : List A) (a : A) → contains xs a ≡ true → p a ≡ true → any p xs ≡ true
  any-mem p [] a m h = cc
  any-mem p (x ∷ xs) a m h = ground (arith, any-mem p xs a)

  pub any-witness :
      (p : A → Bool) (xs : List A)
      → any p xs ≡ true
      → (a : A) × (contains xs a ≡ true) × (p a ≡ true)
  any-witness p [] h = cc
  any-witness p (x ∷ xs) h = elim (Bool-cases (p x)) [
    | inl e ↦ (x, ground arith, e)
    | inr e ↦ let (a, m, q) = any-witness p xs (ground arith) in (a, ground arith, q)
  ]

  -- A test that only one listed element can pass holds of some element if it holds of that one.
  pub any_only :
      (p : A → Bool) (xs : List A) (a : A)
      → contains xs a ≡ true
      → ((b : A) → contains xs b ≡ true → p b ≡ true → b ≡ a)
      → any p xs ≡ p a
  any_only p xs a m only = elim (Bool-cases (any p xs)) [
    | inl e ↦ let (b, mb, pb) = any-witness p xs e in ground (arith, e, only b mb pb, pb)
    | inr e ↦ ground (arith, e, any-mem p xs a m)
  ]

  pub find-mem :
      (p : A → Bool) (xs : List A) (a : A)
      → find p xs ≡ some a
      → (contains xs a ≡ true) × (p a ≡ true)
  find-mem p [] a h = cc
  find-mem p (x ∷ xs) a h = ground (arith, find-mem p xs a)

  pub find-none :
      (p : A → Bool) (xs : List A) (a : A) → find p xs ≡ none → contains xs a ≡ true → p a ≡ false
  find-none p [] a h m = cc
  find-none p (x ∷ xs) a h m = ground (arith, find-none p xs a)

-- An option that is emptied if its value passes a test.
abbrev pub drop_if {ℓ} : {A : Type ℓ} → (A → Bool) → Option A → Option A
drop_if p none = none
drop_if p (some a) = if p a then none else some a
