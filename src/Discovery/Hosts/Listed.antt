-- ===== src/Discovery/Hosts/Listed.antt =====
-- internal/discovery/network.go: the loop of `generateIPs`.
use mathlib.Core.Option
use native.Mathlib.Nat.{div-lt_iff_lt-mul, div-mul-le_self, mul-le-mul_right, suc-mul, pow-succ'}
use homelab_homepage.Prelude.{
  ℕ, zero, suc, ◌+◌, ◌-◌, ◌*◌, ◌/◌, ◌%◌, ◌⊎◌, ◌^◌, ◌≤◌, ◌<◌, ◌≡◌, refl, none, some, List, [], ◌∷◌,
  arith, ap, length, ◌∙◌, Bool-cases, inl, inr, subst, sym, nat_eq, leb,
}
use homelab_homepage.Discovery.Hosts.{
  Addr, v4, no_addr, next, Prefix, masked, broadcast_addr, hosts_loop, generate_ips,
}
use homelab_homepage.Discovery.Hosts.Broadcast.{broadcast_addr_lem, pow_add, pow_pos}

-- The `k` addresses from `n` on.
abbrev pub between : ℕ → ℕ → List Addr
between n zero = []
between n (suc k) = v4 n ∷ between (suc n) k

pub length-between : (n k : ℕ) → length (between n k) ≡ k
length-between n zero = refl
length-between n (suc k) = omega (arith, length-between (suc n) k)

hosts_loop-past : (f n last : ℕ) → last ≤ n → 0 < f → hosts_loop f (v4 n) last ≡ some []
unfolding hosts_loop
hosts_loop-past zero n last h l = elim l [ ]
hosts_loop-past (suc f) n last h l = ground arith

hosts_loop-before :
    (f n last : ℕ)
    → n < last
    → last < 2 ^ 32
    → hosts_loop (suc f) (v4 n) last
      ≡ Option.map (λ ips. v4 n ∷ ips) (hosts_loop f (v4 (suc n)) last)
unfolding hosts_loop
hosts_loop-before f n last h l = ground arith

hosts_loop-between :
    (k f n last : ℕ)
    → n + k ≡ last
    → last < 2 ^ 32
    → k < f
    → hosts_loop f (v4 n) last ≡ some (between n k)
hosts_loop-between zero f n last h l m = hosts_loop-past f n last (omega arith) (omega arith)
hosts_loop-between (suc k) zero n last h l m = elim m [ ]
hosts_loop-between (suc k) (suc f) n last h l m =
    hosts_loop-before f n last (omega arith) l
    ∙ ap (Option.map (λ ips. v4 n ∷ ips))
        (hosts_loop-between k f (suc n) last (omega arith) l (omega arith))

-- What is no address never ends the loop.
hosts_loop-no_addr : (f n last : ℕ) → hosts_loop f (no_addr n) last ≡ none
unfolding hosts_loop
hosts_loop-no_addr zero n last = refl
hosts_loop-no_addr (suc f) n last = ground (arith, hosts_loop-no_addr f ((n + 1) % 2 ^ 128) last)

-- The last address of a prefix.
pub last-lt :
    (addr bits : ℕ)
    → addr < 2 ^ 32
    → bits ≤ 32
    → addr / 2 ^ (32 - bits) * 2 ^ (32 - bits) + 2 ^ (32 - bits) ≤ 2 ^ 32
last-lt addr bits h l =
    let z : bits + (32 - bits) ≡ 32 = omega arith in
    let whole : 2 ^ bits * 2 ^ (32 - bits) ≡ 2 ^ 32 =
      sym (pow_add bits (32 - bits)) ∙ ap (λ k. 2 ^ k) z in
    let less = (div-lt_iff_lt-mul (pow_pos (32 - bits))).1 (subst (λ k. addr < k) (sym whole) h) in
    let fits : suc (addr / 2 ^ (32 - bits)) ≤ 2 ^ bits = omega (arith, less) in
    subst (λ k. addr / 2 ^ (32 - bits) * 2 ^ (32 - bits) + 2 ^ (32 - bits) ≤ k) whole
      (grind (
        arith,
        mul-le-mul_right (2 ^ (32 - bits)) fits,
        suc-mul (addr / 2 ^ (32 - bits)) (2 ^ (32 - bits)),
      ))

wide : (bits : ℕ) → bits < 32 → 2 ≤ 2 ^ (32 - bits)
wide bits h =
    let z : suc (31 - bits) ≡ 32 - bits = omega arith in
    subst (λ k. 2 ≤ 2 ^ k) z (omega (arith, pow-succ' 2 (31 - bits), pow_pos (31 - bits)))

-- For any IPv4 prefix but 255.255.255.255/32 the loop ends within as many rounds as the prefix has
-- addresses, and gives the addresses strictly between the first and the last one of the prefix, in
-- order.
pub generate_ips-between :
    (f : ℕ) (p : Prefix)
    → p.addr < 2 ^ 32
    → p.bits ≤ 32
    → (p.bits < 32) ⊎ (p.addr + 1 < 2 ^ 32)
    → 2 ^ (32 - p.bits) ≤ f
    → generate_ips f (some p) ≡ some (between (masked p + 1) (2 ^ (32 - p.bits) - 2))
unfolding generate_ips masked
generate_ips-between f p h l narrow fuel =
    let first = p.addr / 2 ^ (32 - p.bits) * 2 ^ (32 - p.bits) in
    let size = 2 ^ (32 - p.bits) in
    let end = last-lt p.addr p.bits h l in
    let pos_size = pow_pos (32 - p.bits) in
    let last =
      broadcast_addr_lem (p.addr / 2 ^ (32 - p.bits)) p.bits (omega (arith, end, pos_size)) in
    let below = div-mul-le_self p.addr size in
    let more : first + 1 < 2 ^ 32 = elim narrow [
      | inl n ↦ omega (arith, end, wide p.bits n)
      | inr n ↦ omega (arith, below, n)
    ] in
    let start : next (v4 first) ≡ v4 (first + 1) = ground (arith, more) in
    let run : hosts_loop f (v4 (first + 1)) (first + (size - 1))
        ≡ some (between (first + 1) (size - 2)) =
      elim (Bool-cases (leb size 1)) [
        | inl e ↦
            let one : size ≡ 1 = ground (arith, pos_size) in
            hosts_loop-past f (first + 1) (first + (size - 1)) (omega (arith, one))
              (omega (arith, fuel, one))
            ∙ ap (λ k. some (between (first + 1) (k - 2))) (sym one)
        | inr e ↦
            hosts_loop-between (size - 2) f (first + 1) (first + (size - 1)) (ground (arith, e))
              (omega (arith, end, pos_size)) (ground (arith, e, fuel))
      ] in
    ap (λ a. hosts_loop f a (broadcast_addr first p.bits)) start
    ∙ ap (λ k. hosts_loop f (v4 (first + 1)) k) last
    ∙ run

-- For the subnet 255.255.255.255/32 no number of rounds ends the loop.
pub generate_ips-endless :
    (f addr : ℕ)
    → addr + 1 ≡ 2 ^ 32
    → generate_ips f (some (record { addr = addr; bits = 32 })) ≡ none
unfolding generate_ips masked
generate_ips-endless f addr e =
    ground (arith, hosts_loop-no_addr f 0 (broadcast_addr (addr / 1 * 1) 32))
