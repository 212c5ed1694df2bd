-- ===== src/Cf/Act.antt =====
-- Actions on the outside world that may fail. What was done before a failure stays done.
use homelab_homepage.Prelude.{Option, none, some}

-- The three ways in which a call of the client fails. The texts of errors are not modelled.
pub data Error : Type 0 where
  request_failed decode_failed not_configured : Error

pub data Result (A : Type 0) : Type 0 where
  ok : A → Result A
  err : Error → Result A

abbrev pub Act : Type 0 → Type 0 → Type 0
Act W A = W → Result A × W

-- An error is logged, and the code goes on.
abbrev pub caught : {A : Type 0} → Result A → Option A
caught (ok a) = some a
caught (err e) = none

module _ {W : Type 0} where
  abbrev pub pure : {A : Type 0} → A → Act W A
  pure a w = (ok a, w)

  abbrev pub fail : {A : Type 0} → Error → Act W A
  fail e w = (err e, w)

  abbrev pub and_then : {A B : Type 0} → Result A → (A → Act W B) → Act W B
  and_then (ok a) f w = f a w
  and_then (err e) f w = (err e, w)

  infixl 5 ◌>>=◌ ◌>>◌
  abbrev pub ◌>>=◌ : {A B : Type 0} → Act W A → (A → Act W B) → Act W B
  ◌>>=◌ m f w = let (r, w') = m w in and_then r f w'

  abbrev pub ◌>>◌ : {A B : Type 0} → Act W A → Act W B → Act W B
  m >> k = m >>= λ _. k

  abbrev pub attempt : {A : Type 0} → Act W A → Act W (Option A)
  attempt m w = let (r, w') = m w in (ok (caught r), w')
