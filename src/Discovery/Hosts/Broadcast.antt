-- ===== src/Discovery/Hosts/Broadcast.antt =====
-- internal/discovery/network.go: `broadcastAddr`.
use native.Mathlib.Nat.{mod-add-div, add-mul-mod_self_left, mod-eq_of_lt, pow-succ', mul_assoc}
use homelab_homepage.Prelude.{
  ℕ, zero, suc, ◌+◌, ◌-◌, ◌*◌, ◌/◌, ◌%◌, ◌^◌, ◌≤◌, ◌<◌, ◌≡◌, ◌≢◌, arith, nat_eq, ◌⊎◌, ap, subst,
  sym, inl, inr, ◌∙◌,
}
use homelab_homepage.Discovery.Hosts.{
  Bytes, as4, addr_from4, or_bit, set_bit, set_bits, broadcast_addr,
}

-- The four bytes are bytes.
abbrev pub AreBytes : Bytes → Type 0
AreBytes b = (b.b0 < 256) × (b.b1 < 256) × (b.b2 < 256) × (b.b3 < 256)

as4-AreBytes : (n : ℕ) → n < 2 ^ 32 → AreBytes (as4 n)
as4-AreBytes n h = (omega arith, omega arith, omega arith, omega arith)

addr_from4-as4 : (n : ℕ) → n < 2 ^ 32 → addr_from4 (as4 n) ≡ n
addr_from4-as4 n h = omega arith

-- What holds of the eight bits of a byte, as numbers, holds of the powers below the eighth.
bit_cases :
    (P : ℕ → Type 0)
    → P 1
    → P 2
    → P 4
    → P 8
    → P 16
    → P 32
    → P 64
    → P 128
    → (j : ℕ) → j < 8
    → P (2 ^ j)
bit_cases P a b c d e f g h zero l = a
bit_cases P a b c d e f g h (suc zero) l = b
bit_cases P a b c d e f g h (suc (suc zero)) l = c
bit_cases P a b c d e f g h (suc (suc (suc zero))) l = d
bit_cases P a b c d e f g h (suc (suc (suc (suc zero)))) l = e
bit_cases P a b c d e f g h (suc (suc (suc (suc (suc zero))))) l = f
bit_cases P a b c d e f g h (suc (suc (suc (suc (suc (suc zero)))))) l = g
bit_cases P a b c d e f g h (suc (suc (suc (suc (suc (suc (suc zero))))))) l = h
bit_cases P a b c d e f g h (suc (suc (suc (suc (suc (suc (suc (suc n)))))))) l =
    absurd (omega arith)

-- A byte above `low` lower ones, in which all bits below `j` are set and bit `j` is not, gets that bit.
module _ (up b : ℕ) where
  or_bit-clear : (j : ℕ) → j < 8 → (up * 256 + b) % (2 * 2 ^ j) ≡ 2 ^ j - 1 → or_bit j b ≡ b + 2 ^ j
  unfolding or_bit
  or_bit-clear j h e = ground (arith, clear j h e)
    where
      clear : (j : ℕ) → j < 8 → (up * 256 + b) % (2 * 2 ^ j) ≡ 2 ^ j - 1 → b / 2 ^ j % 2 ≡ 0
      clear =
          bit_cases (λ p. (up * 256 + b) % (2 * p) ≡ p - 1 → b / p % 2 ≡ 0) (λ e. omega (arith, e))
            (λ e. omega (arith, e)) (λ e. omega (arith, e)) (λ e. omega (arith, e))
            (λ e. omega (arith, e)) (λ e. omega (arith, e)) (λ e. omega (arith, e))
            (λ e. omega (arith, e))

-- All bits below `256 * p` are set and the next one is not: without the lowest byte, all below `p`.
drop_byte : (n p : ℕ) → 0 < p → n % (512 * p) ≡ 256 * p - 1 → n / 256 % (2 * p) ≡ p - 1
drop_byte n p h e =
    let t = p * (n / (512 * p)) in
    let whole : n ≡ 256 * p - 1 + 512 * t = grind (arith, mod-add-div n (512 * p), e) in
    let part : n / 256 ≡ p - 1 + 2 * t = omega (arith, whole, h) in
    let split : p - 1 + 2 * t ≡ p - 1 + 2 * p * (n / (512 * p)) = grind arith in
    ap (λ k. k % (2 * p)) (part ∙ split)
    ∙ add-mul-mod_self_left (p - 1) (2 * p) (n / (512 * p))
    ∙ mod-eq_of_lt (omega (arith, h))

-- Setting the bit `i` in bytes that have all bits below it and not this one.
abbrev Step : ℕ → Bytes → Type 0
Step i b = (addr_from4 (set_bit i b) ≡ addr_from4 b + 2 ^ i) × AreBytes (set_bit i b)

pub pow_add : (k j : ℕ) → 2 ^ (k + j) ≡ 2 ^ k * 2 ^ j
pow_add zero j = let z : 0 + j ≡ j = omega arith in omega (arith, ap (λ k. 2 ^ k) z)
pow_add (suc k) j = grind (arith, pow_add k j, pow-succ' 2 (k + j), pow-succ' 2 k)

pub pow_pos : (k : ℕ) → 0 < 2 ^ k
pow_pos zero = omega arith
pow_pos (suc k) = omega (arith, pow_pos k)

or_bit-IsByte : (b j : ℕ) → b < 256 → j < 8 → or_bit j b < 256
unfolding or_bit
or_bit-IsByte b j h l = ground (arith, room j l)
  where
    room : (j : ℕ) → j < 8 → b / 2 ^ j % 2 ≢ 1 → b + 2 ^ j < 256
    room =
        bit_cases (λ p. b / p % 2 ≢ 1 → b + p < 256) (λ e. omega (arith, e, h))
          (λ e. omega (arith, e, h)) (λ e. omega (arith, e, h)) (λ e. omega (arith, e, h))
          (λ e. omega (arith, e, h)) (λ e. omega (arith, e, h)) (λ e. omega (arith, e, h))
          (λ e. omega (arith, e, h))

-- The address of four bytes, without its lowest bytes.
up1 : (b : Bytes) → AreBytes b → addr_from4 b / 256 ≡ (b.b0 * 256 + b.b1) * 256 + b.b2
up1 b (h0, h1, h2, h3) = omega (arith, h3)

up2 : (b : Bytes) → AreBytes b → addr_from4 b / 256 / 256 ≡ b.b0 * 256 + b.b1
up2 b (h0, h1, h2, h3) = omega (arith, h3, h2)

up3 : (b : Bytes) → AreBytes b → addr_from4 b / 256 / 256 / 256 ≡ 0 * 256 + b.b0
up3 b (h0, h1, h2, h3) = omega (arith, h3, h2, h1)

module _ (b : Bytes) (h : AreBytes b) (j : ℕ) (l : j < 8) where
  step0 : addr_from4 b % (2 * 2 ^ j) ≡ 2 ^ j - 1 → Step j b
  unfolding set_bit
  step0 e =
      let n : addr_from4 b ≡ ((b.b0 * 256 + b.b1) * 256 + b.b2) * 256 + b.b3 = omega arith in
      let put =
        or_bit-clear ((b.b0 * 256 + b.b1) * 256 + b.b2) b.b3 j l
          (ap (λ k. k % (2 * 2 ^ j)) (sym n) ∙ e) in
      let less = or_bit-IsByte b.b3 j (h.3) l in ground (arith, put, less, h, l)

  -- Without the lowest byte.
  step1 : addr_from4 b % (2 * 2 ^ (8 + j)) ≡ 2 ^ (8 + j) - 1 → Step (8 + j) b
  unfolding set_bit
  step1 e =
      let p = pow_add 8 j in
      let e1 : addr_from4 b % (512 * 2 ^ j) ≡ 256 * 2 ^ j - 1 = grind (arith, e, p) in
      let d = drop_byte (addr_from4 b) (2 ^ j) (pow_pos j) e1 in
      let put =
        or_bit-clear (b.b0 * 256 + b.b1) b.b2 j l (ap (λ k. k % (2 * 2 ^ j)) (sym (up1 b h)) ∙ d) in
      let less = or_bit-IsByte b.b2 j (h.2) l in ground (arith, put, less, h, l, p)

  -- Without the two lowest bytes.
  step2 : addr_from4 b % (2 * 2 ^ (16 + j)) ≡ 2 ^ (16 + j) - 1 → Step (16 + j) b
  unfolding set_bit
  step2 e =
      let p = pow_add 16 j in
      let e1 : addr_from4 b % (512 * (256 * 2 ^ j)) ≡ 256 * (256 * 2 ^ j) - 1 =
        grind (arith, e, p) in
      let d1 = drop_byte (addr_from4 b) (256 * 2 ^ j) (omega (arith, pow_pos j)) e1 in
      let e2 : addr_from4 b / 256 % (512 * 2 ^ j) ≡ 256 * 2 ^ j - 1 = grind (arith, d1) in
      let d2 = drop_byte (addr_from4 b / 256) (2 ^ j) (pow_pos j) e2 in
      let put = or_bit-clear b.b0 b.b1 j l (ap (λ k. k % (2 * 2 ^ j)) (sym (up2 b h)) ∙ d2) in
      let less = or_bit-IsByte b.b1 j (h.1) l in ground (arith, put, less, h, l, p)

  -- Without the three lowest bytes.
  step3 : addr_from4 b % (2 * 2 ^ (24 + j)) ≡ 2 ^ (24 + j) - 1 → Step (24 + j) b
  unfolding set_bit
  step3 e =
      let p = pow_add 24 j in
      let e1 : addr_from4 b % (512 * (65536 * 2 ^ j)) ≡ 256 * (65536 * 2 ^ j) - 1 =
        grind (arith, e, p) in
      let d1 = drop_byte (addr_from4 b) (65536 * 2 ^ j) (omega (arith, pow_pos j)) e1 in
      let e2 : addr_from4 b / 256 % (512 * (256 * 2 ^ j)) ≡ 256 * (256 * 2 ^ j) - 1 =
        grind (arith, d1) in
      let d2 = drop_byte (addr_from4 b / 256) (256 * 2 ^ j) (omega (arith, pow_pos j)) e2 in
      let e3 : addr_from4 b / 256 / 256 % (512 * 2 ^ j) ≡ 256 * 2 ^ j - 1 = grind (arith, d2) in
      let d3 = drop_byte (addr_from4 b / 256 / 256) (2 ^ j) (pow_pos j) e3 in
      let put = or_bit-clear 0 b.b0 j l (ap (λ k. k % (2 * 2 ^ j)) (sym (up3 b h)) ∙ d3) in
      let less = or_bit-IsByte b.b0 j (h.0) l in ground (arith, put, less, h, l, p)

-- What a step needs, and what it gives.
abbrev Steps : Bytes → ℕ → Type 0
Steps b i = addr_from4 b % (2 * 2 ^ i) ≡ 2 ^ i - 1 → Step i b

set_bit-Step : (i : ℕ) (b : Bytes) → i < 32 → AreBytes b → Steps b i
set_bit-Step i b l h = elim byte [
  | inl e ↦ subst (Steps b) (sym e) (step0 b h (i % 8) (omega arith))
  | inr (inl e) ↦ subst (Steps b) (sym e) (step1 b h (i % 8) (omega arith))
  | inr (inr (inl e)) ↦ subst (Steps b) (sym e) (step2 b h (i % 8) (omega arith))
  | inr (inr (inr e)) ↦ subst (Steps b) (sym e) (step3 b h (i % 8) (omega arith))
]
  where
    byte : (i ≡ i % 8) ⊎ (i ≡ 8 + i % 8) ⊎ (i ≡ 16 + i % 8) ⊎ (i ≡ 24 + i % 8)
    byte = ground arith

-- The bits below `i` are set, and those from `i` on to `i + n` are not.
low_bits : (n i q m : ℕ) → m ≡ 2 ^ (i + suc n) * q + (2 ^ i - 1) → m % (2 * 2 ^ i) ≡ 2 ^ i - 1
low_bits n i q m e =
    let p1 : 2 ^ (i + suc n) ≡ 2 * 2 ^ i * 2 ^ n =
      pow_add i (suc n) ∙ ap (λ k. 2 ^ i * k) (pow-succ' 2 n) ∙ grind arith in
    let whole : m ≡ 2 ^ i - 1 + 2 * 2 ^ i * (2 ^ n * q) =
      e ∙ ap (λ k. k * q + (2 ^ i - 1)) p1 ∙ grind (arith, mul_assoc (2 * 2 ^ i) (2 ^ n) q) in
    ap (λ k. k % (2 * 2 ^ i)) whole
    ∙ add-mul-mod_self_left (2 ^ i - 1) (2 * 2 ^ i) (2 ^ n * q)
    ∙ mod-eq_of_lt (omega (arith, pow_pos i))

set_bits-sum :
    (n i q : ℕ) (b : Bytes)
    → i + n ≤ 32
    → AreBytes b
    → addr_from4 b ≡ 2 ^ (i + n) * q + (2 ^ i - 1)
    → addr_from4 (set_bits n i b) ≡ 2 ^ (i + n) * q + (2 ^ (i + n) - 1)
unfolding set_bits
set_bits-sum zero i q b l h e =
    let z : i + 0 ≡ i = omega arith in
    subst (λ k. addr_from4 b ≡ 2 ^ k * q + (2 ^ k - 1)) (sym z)
      (subst (λ k. addr_from4 b ≡ 2 ^ k * q + (2 ^ i - 1)) z e)
set_bits-sum (suc n) i q b l h e =
    let (put, bytes) = set_bit-Step i b (omega arith) h (low_bits n i q _ e) in
    let z : suc i + n ≡ i + suc n = omega arith in
    let next : addr_from4 (set_bit i b) ≡ 2 ^ (i + suc n) * q + (2 ^ suc i - 1) =
      omega (arith, put, e, pow_pos i, pow-succ' 2 i) in
    subst (λ k. addr_from4 (set_bits n (suc i) (set_bit i b)) ≡ 2 ^ k * q + (2 ^ k - 1)) z
      (set_bits-sum n (suc i) q (set_bit i b) (omega arith) bytes
        (subst (λ k. addr_from4 (set_bit i b) ≡ 2 ^ k * q + (2 ^ suc i - 1)) (sym z) next))

pub broadcast_addr_lem :
    (q bits : ℕ)
    → q * 2 ^ (32 - bits) < 2 ^ 32
    → broadcast_addr (q * 2 ^ (32 - bits)) bits ≡ q * 2 ^ (32 - bits) + (2 ^ (32 - bits) - 1)
unfolding broadcast_addr
broadcast_addr_lem q bits h =
    let z : 0 + (32 - bits) ≡ 32 - bits = omega arith in
    let start : addr_from4 (as4 (q * 2 ^ (32 - bits))) ≡ 2 ^ (0 + (32 - bits)) * q + 0 =
      addr_from4-as4 (q * 2 ^ (32 - bits)) h
      ∙ subst (λ k. q * 2 ^ (32 - bits) ≡ 2 ^ k * q + 0) (sym z) (grind arith) in
    set_bits-sum (32 - bits) 0 q (as4 (q * 2 ^ (32 - bits))) (omega arith) (as4-AreBytes _ h) start
    ∙ subst (λ k. 2 ^ k * q + (2 ^ k - 1) ≡ q * 2 ^ (32 - bits) + (2 ^ (32 - bits) - 1)) (sym z)
        (grind arith)
