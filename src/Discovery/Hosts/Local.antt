-- ===== src/Discovery/Hosts/Local.antt =====
-- internal/discovery/network.go: the subnet that `getLocalSubnet` gives to `generateIPs`.
use native.Mathlib.Nat.{div-mul-le_self, pow-le-pow_right}
use homelab_homepage.Prelude.{
  ℕ, ◌+◌, ◌-◌, ◌^◌, ◌≤◌, ◌<◌, ◌≡◌, Option, none, some, List, [], ◌∷◌, arith, length, Option-cases,
  inl, inr,
}
use homelab_homepage.Discovery.Hosts.{
  Addr, Prefix, masked, IpNet, Interface, suitable, suitable_ip, capped, first_suitable,
  addrs_subnet, interface_subnet, get_local_subnet, generate_ips,
}
use homelab_homepage.Discovery.Hosts.Listed.{between, length-between, generate_ips-between}

-- An IPv4 address that is not 255.255.255.255.
abbrev pub IsIp : Option ℕ → Type 0
IsIp none = Unit {0}
IsIp (some ip) = ip + 1 < 2 ^ 32

abbrev pub IsIpNet : Option IpNet → Type 0
IsIpNet none = Unit {0}
IsIpNet (some n) = IsIp n.ip4 × (n.ones ≤ 32)

abbrev pub AreIpNets : List (Option IpNet) → Type 0
AreIpNets [] = Unit {0}
AreIpNets (a ∷ rest) = IsIpNet a × AreIpNets rest

abbrev pub IsRead : Option (List (Option IpNet)) → Type 0
IsRead none = Unit {0}
IsRead (some addrs) = AreIpNets addrs

-- Every interface has addresses of IPv4's range, none of them 255.255.255.255, with masks of at most
-- 32 bits.
abbrev pub AreInterfaces : List Interface → Type 0
AreInterfaces [] = Unit {0}
AreInterfaces (i ∷ rest) = IsRead i.addrs × AreInterfaces rest

-- A prefix of at most 256 addresses, whose last one is not the last of all.
abbrev IsSmall : Prefix → Type 0
IsSmall p = (p.addr + 1 < 2 ^ 32) × (24 ≤ p.bits) × (p.bits ≤ 32)

suitable_ip-IsSmall :
    (ip : Option ℕ) (ones mask_bits : ℕ) (p : Prefix)
    → IsIp ip
    → ones ≤ 32
    → suitable_ip ip ones mask_bits ≡ some p
    → IsSmall p
unfolding masked
suitable_ip-IsSmall none ones mask_bits p h l e = ground arith
suitable_ip-IsSmall (some ip) ones mask_bits p h l e =
    let below = div-mul-le_self ip (2 ^ (32 - capped ones)) in ground (arith, below, h, l, e)

suitable-IsSmall : (a : Option IpNet) (p : Prefix) → IsIpNet a → suitable a ≡ some p → IsSmall p
suitable-IsSmall none p h e = ground arith
suitable-IsSmall (some n) p (h, l) e = suitable_ip-IsSmall n.ip4 n.ones n.mask_bits p h l e

first_suitable-IsSmall :
    (addrs : List (Option IpNet)) (p : Prefix)
    → AreIpNets addrs
    → first_suitable addrs ≡ some p
    → IsSmall p
unfolding first_suitable
first_suitable-IsSmall [] p h e = ground arith
first_suitable-IsSmall (a ∷ rest) p (h, hs) e = elim (Option-cases (suitable a)) [
  | inl q ↦ first_suitable-IsSmall rest p hs (ground (arith, q, e))
  | inr (r, q) ↦ suitable-IsSmall a p h (ground (arith, q, e))
]

addrs_subnet-IsSmall :
    (addrs : Option (List (Option IpNet))) (p : Prefix)
    → IsRead addrs
    → addrs_subnet addrs ≡ some p
    → IsSmall p
addrs_subnet-IsSmall none p h e = ground arith
addrs_subnet-IsSmall (some addrs) p h e = first_suitable-IsSmall addrs p h e

interface_subnet-addrs :
    (i : Interface) (p : Prefix) → interface_subnet i ≡ some p → addrs_subnet i.addrs ≡ some p
unfolding interface_subnet
interface_subnet-addrs i p e = ground (arith, e)

get_local_subnet-IsSmall :
    (ifs : List Interface) (p : Prefix)
    → AreInterfaces ifs
    → get_local_subnet ifs ≡ some p
    → IsSmall p
unfolding get_local_subnet
get_local_subnet-IsSmall [] p h e = ground arith
get_local_subnet-IsSmall (i ∷ rest) p (h, hs) e = elim (Option-cases (interface_subnet i)) [
  | inl q ↦ get_local_subnet-IsSmall rest p hs (ground (arith, q, e))
  | inr (r, q) ↦
      addrs_subnet-IsSmall i.addrs p h (interface_subnet-addrs i p (ground (arith, q, e)))
]

-- If the addresses of the interfaces are in the range of IPv4, none is 255.255.255.255 and the
-- masks have at most 32 bits, then the hosts of the local subnet that is chosen are listed within
-- 256 rounds, and are at most 254.
pub get_local_subnet-hosts :
    (ifs : List Interface) (p : Prefix)
    → AreInterfaces ifs
    → get_local_subnet ifs ≡ some p
    → (ips : List Addr) × (generate_ips 256 (some p) ≡ some ips) × (length ips ≤ 254)
get_local_subnet-hosts ifs p h e =
    let (a, b, c) = get_local_subnet-IsSmall ifs p h e in
    let size : 2 ^ (32 - p.bits) ≤ 2 ^ 8 =
      let narrow : 32 - p.bits ≤ 8 = omega (arith, b) in pow-le-pow_right (omega arith) narrow in
    (
      between (masked p + 1) (2 ^ (32 - p.bits) - 2),
      generate_ips-between 256 p (omega (arith, a)) c (inr a) (omega (arith, size)),
      omega (arith, size, length-between (masked p + 1) (2 ^ (32 - p.bits) - 2)),
    )
