-- ===== src/Discovery/Signatures/First.antt =====
-- internal/discovery/network.go: what `fingerprint` finds in the table.
use homelab_homepage.Prelude.{
  ℕ, String, Bool, true, false, ◌&&◌, List, [], ◌∷◌, ◌++◌, ◌≡◌, ◌≢◌, ◌≤◌, ◌<◌, refl, ◌⊎◌, inl, inr,
  arith, any, ltb, leb, ◌!=◌, string_eq, string_dec, Bool-cases, ap,
}
use homelab_homepage.Discovery.Signatures.{signatures, first_match, fingerprint}
use homelab_homepage.Discovery.Signatures.Entry.{Signature, simple_sig}

-- An entry that has a name and is nearly certain.
unfoldable is_sure : Signature → Bool
is_sure s = leb 90 s.confidence && (ltb s.confidence 100 && s.name != "")

unfoldable all_sure : List Signature → Bool
unfolding is_sure
all_sure [] = true
all_sure (s ∷ rest) = is_sure s && all_sure rest

-- What a search in a table gives: nothing if no entry matches, or the first entry that does.
abbrev pub IsFirst :
    List Signature → (String → String) → String → String → String × ℕ × String → Type 0
IsFirst sigs h b t r =
    ((any (λ s. s.matches h b t) sigs ≡ false) × (r ≡ ("", 0, "")))
    ⊎ ((before : List Signature) × (s : Signature) × (after : List Signature) × (sigs
          ≡ before ++ s ∷ after)
        × (any (λ s. s.matches h b t) before ≡ false)
        × (s.matches h b t ≡ true)
        × (r ≡ (s.name, s.confidence, s.icon))
        × (90 ≤ s.confidence)
        × (s.confidence < 100)
        × (s.name ≢ ""))

first_match-IsFirst :
    (sigs : List Signature) (h : String → String) (b t : String)
    → all_sure sigs ≡ true
    → IsFirst sigs h b t (first_match sigs h b t)
unfolding first_match all_sure is_sure
first_match-IsFirst [] h b t e = inl (refl, refl)
first_match-IsFirst (s ∷ rest) h b t e = elim (Bool-cases (s.matches h b t)) [
  | inl m ↦ inr (
    [],
    s,
    rest,
    refl,
    refl,
    m,
    ground (arith, m),
    ground (arith, e),
    ground (arith, e),
    ground (arith, e),
  )
  | inr m ↦ elim (first_match-IsFirst rest h b t (ground (arith, e))) [
    | inl (absent, r) ↦ inl (ground (arith, m, absent), ground (arith, m, r))
    | inr (before, f, after, split, absent, found, r, lo, hi, named) ↦ inr (
      s ∷ before,
      f,
      after,
      ap (λ l. s ∷ l) split,
      ground (arith, m, absent),
      found,
      ground (arith, m, r),
      lo,
      hi,
      named,
    )
  ]
]

signatures-sure : all_sure signatures ≡ true
unfolding all_sure is_sure signatures simple_sig string_dec
signatures-sure = refl

-- The search gives nothing if no entry of the whole table matches, and otherwise the name, the
-- confidence and the icon of the first entry that matches; its name is not empty, and its
-- confidence is from 90 to 99 hundredths.
pub fingerprint-IsFirst :
    (h : String → String) (body title : String)
    → IsFirst signatures h body title (fingerprint h body title)
unfolding fingerprint
fingerprint-IsFirst h body title = first_match-IsFirst signatures h body title signatures-sure
