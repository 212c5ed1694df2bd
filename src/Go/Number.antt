-- ===== src/Go/Number.antt =====
-- strconv.Itoa and strconv.Atoi.
use Prim.Native.Char.{Char, code}
use Prim.Native.String.{[], ◌∷◌}
use homelab_homepage.Prelude.{
  ℕ, zero, suc, ◌+◌, ◌-◌, ◌*◌, ◌/◌, ◌%◌, ◌^◌, ◌≤◌, ◌<◌, ltb, leb, String, ◌<>◌, ◌≡◌, refl, Bool,
  true, false, ◌&&◌, Option, none, some, arith, ◌==◌, string_eq, nat_eq, if◌then◌else◌, ℤ, pos,
  negsuc, ◌∙◌, ap, Bool-cases, inl, inr,
}
use homelab_homepage.Go.Text.{has_byte}

nth : ℕ → String → Char
nth n [] = "0"
nth zero (c ∷ s) = c
nth (suc n) (c ∷ s) = nth n s

-- The character of a digit.
digit : ℕ → Char
unfolding nth
digit d = nth d "0123456789"

-- The digits of `n` before `acc`; `suc n` is fuel enough, since a division by ten shrinks `n`.
itoa_loop : ℕ → ℕ → String → String
itoa_loop zero n acc = acc
itoa_loop (suc f) n acc =
    let more = itoa_loop f (n / 10) (digit (n % 10) ∷ acc) in
    if ltb n 10 then digit n ∷ acc else more

unfoldable pub itoa : ℤ → String
unfolding itoa_loop digit
itoa (pos n) = itoa_loop (suc n) n []
itoa (negsuc n) = "-" <> itoa_loop (suc (suc n)) (suc n) []

atoi_loop : ℕ → String → Option ℕ
atoi_loop acc [] = some acc
atoi_loop acc (c ∷ s) =
    if leb b'0' (code c) && leb (code c) b'9'
    then atoi_loop (acc * 10 + (code c - b'0')) s
    else none

-- The largest `int`, and the distance of the least one from -1: both are 2^63 - 1.
abbrev pub max_int : ℕ
max_int = 2 ^ 63 - 1

-- The value and whether there was no error. A text that is no number gives 0, one out of range the
-- nearest `int`.
abbrev positive : Option ℕ → ℤ × Bool
positive none = (pos 0, false)
positive (some n) = if leb n max_int then (pos n, true) else (pos max_int, false)

abbrev negative : Option ℕ → ℤ × Bool
negative none = (pos 0, false)
negative (some zero) = (pos 0, true)
negative (some (suc n)) = if leb n max_int then (negsuc n, true) else (negsuc max_int, false)

digits : String → Option ℕ
unfolding atoi_loop
digits [] = none
digits (c ∷ s) = atoi_loop 0 (c ∷ s)

unfoldable pub atoi : String → ℤ × Bool
unfolding digits
atoi [] = (pos 0, false)
atoi (c ∷ s) =
    if code c == b'-'
    then negative (digits s)
    else if code c == b'+'
    then positive (digits s)
    else positive (digits (c ∷ s))

-- A digit is its own code less that of `0`; it is no sign, and no colon.
code-digit : (d : ℕ) → d < 10 → code (digit d) ≡ 48 + d
unfolding digit
code-digit zero h = refl
code-digit (suc zero) h = refl
code-digit (suc (suc zero)) h = refl
code-digit (suc (suc (suc zero))) h = refl
code-digit (suc (suc (suc (suc zero)))) h = refl
code-digit (suc (suc (suc (suc (suc zero))))) h = refl
code-digit (suc (suc (suc (suc (suc (suc zero)))))) h = refl
code-digit (suc (suc (suc (suc (suc (suc (suc zero))))))) h = refl
code-digit (suc (suc (suc (suc (suc (suc (suc (suc zero)))))))) h = refl
code-digit (suc (suc (suc (suc (suc (suc (suc (suc (suc zero))))))))) h = refl
code-digit (suc (suc (suc (suc (suc (suc (suc (suc (suc (suc n)))))))))) h = absurd (omega arith)

atoi_loop-digit :
    (a d : ℕ) (s : String) → d < 10 → atoi_loop a (digit d ∷ s) ≡ atoi_loop (a * 10 + d) s
unfolding atoi_loop
atoi_loop-digit a d s h =
    let e = code-digit d h in
    let e' : a * 10 + (code (digit d) - b'0') ≡ a * 10 + d = omega (arith, e) in
    ground (arith, e, e', ap (λ k. atoi_loop k s) e')

atoi_loop-itoa_loop :
    (f n : ℕ) (acc : String) → n < f → atoi_loop 0 (itoa_loop f n acc) ≡ atoi_loop n acc
unfolding itoa_loop
atoi_loop-itoa_loop zero n acc h = elim h [ ]
atoi_loop-itoa_loop (suc f) n acc h = elim (Bool-cases (ltb n 10)) [
  | inl e ↦ rw e (atoi_loop-digit 0 n acc (ground arith) ∙ ap (λ k. atoi_loop k acc) (omega arith))
  | inr e ↦ rw e (
      atoi_loop-itoa_loop f (n / 10) (digit (n % 10) ∷ acc) (ground arith)
      ∙ atoi_loop-digit (n / 10) (n % 10) acc (omega arith)
      ∙ ap (λ k. atoi_loop k acc) (omega arith))
]

-- The text of a number begins with a digit.
Begins : String → Type 0
Begins s = (d : ℕ) × (r : String) × (d < 10) × (s ≡ digit d ∷ r)

itoa_loop-Begins : (f n : ℕ) (acc : String) → n < f → Begins (itoa_loop f n acc)
unfolding itoa_loop Begins
itoa_loop-Begins zero n acc h = elim h [ ]
itoa_loop-Begins (suc f) n acc h = elim (Bool-cases (ltb n 10)) [
  | inl e ↦ rw e (n, acc, ground arith, refl)
  | inr e ↦ rw e (itoa_loop-Begins f (n / 10) (digit (n % 10) ∷ acc) (ground arith))
]

atoi-digit :
    (d : ℕ) (r : String) → d < 10 → atoi (digit d ∷ r) ≡ positive (atoi_loop 0 (digit d ∷ r))
unfolding atoi
atoi-digit d r h = ground (arith, code-digit d h)

atoi-Begins : (s : String) → Begins s → atoi s ≡ positive (atoi_loop 0 s)
unfolding Begins
atoi-Begins s (d, r, h, e) = rw e (atoi-digit d r h)

-- What `Itoa` prints of a number that is not negative `Atoi` reads back.
pub atoi-itoa : (n : ℕ) → n ≤ max_int → atoi (itoa (pos n)) ≡ (pos n, true)
unfolding itoa
atoi-itoa n h =
    atoi-Begins _ (itoa_loop-Begins (suc n) n [] (omega arith))
    ∙ ap positive (atoi_loop-itoa_loop (suc n) n [] (omega arith))
    ∙ (unfold atoi_loop in ground arith)

itoa_loop-no_colon :
    (f n : ℕ) (acc : String) → has_byte b':' acc ≡ false → has_byte b':' (itoa_loop f n acc) ≡ false
unfolding itoa_loop has_byte
itoa_loop-no_colon zero n acc h = h
itoa_loop-no_colon (suc f) n acc h =
    ground (
      arith,
      itoa_loop-no_colon f (n / 10) (digit (n % 10) ∷ acc),
      code-digit n,
      code-digit (n % 10),
    )

pub itoa-no_colon : (n : ℕ) → has_byte b':' (itoa (pos n)) ≡ false
unfolding itoa has_byte
itoa-no_colon n = itoa_loop-no_colon (suc n) n [] refl

itoa_loop-no_slash :
    (f n : ℕ) (acc : String) → has_byte b'/' acc ≡ false → has_byte b'/' (itoa_loop f n acc) ≡ false
unfolding itoa_loop has_byte
itoa_loop-no_slash zero n acc h = h
itoa_loop-no_slash (suc f) n acc h =
    ground (
      arith,
      itoa_loop-no_slash f (n / 10) (digit (n % 10) ∷ acc),
      code-digit n,
      code-digit (n % 10),
    )

pub itoa-no_slash : (n : ℕ) → has_byte b'/' (itoa (pos n)) ≡ false
unfolding itoa has_byte
itoa-no_slash n = itoa_loop-no_slash (suc n) n [] refl

abbrev in_uint16 : Option ℕ → Option ℕ
in_uint16 none = none
in_uint16 (some n) = if ltb n (2 ^ 16) then some n else none

-- strconv.ParseUint(s, 10, 16), with `none` for an error: no sign is allowed.
unfoldable pub parse_uint16 : String → Option ℕ
unfolding digits
parse_uint16 s = in_uint16 (digits s)

digits-Begins : (s : String) → Begins s → digits s ≡ atoi_loop 0 s
unfolding Begins digits
digits-Begins s (d, r, h, e) = rw e refl

-- What `Itoa` prints of a number of 16 bits `ParseUint` reads back.
pub parse_uint16-itoa : (n : ℕ) → n < 2 ^ 16 → parse_uint16 (itoa (pos n)) ≡ some n
unfolding itoa parse_uint16
parse_uint16-itoa n h =
    ap in_uint16 (
      digits-Begins _ (itoa_loop-Begins (suc n) n [] (omega arith))
      ∙ atoi_loop-itoa_loop (suc n) n [] (omega arith))
    ∙ (unfold atoi_loop in ground arith)
