-- ===== src/Discovery/Hosts.antt =====
-- internal/discovery/network.go: the addresses of a subnet, and the subnet of the local network. An
-- IPv4 address is a number below 2^32, or the four bytes of `As4`.
pub mod Broadcast
pub mod Listed
pub mod Local
use mathlib.Core.Option
use homelab_homepage.Prelude.{
  ℕ, zero, suc, ◌+◌, ◌-◌, ◌*◌, ◌/◌, ◌%◌, ◌^◌, String, ◌<>◌, Bool, true, false, ◌&&◌, ◌||◌, not,
  Option, none, some, List, [], ◌∷◌, ltb, ◌==◌, nat_eq, string_eq, if◌then◌else◌, pos,
}
use homelab_homepage.Go.Number.{itoa}
use homelab_homepage.Go.Text.{has_prefix}

-- netip.Addr: an IPv4 address, or the value that is no address, whose 128 bits can be counted up all
-- the same.
pub data Addr : Type 0 where
  v4 : ℕ → Addr
  no_addr : ℕ → Addr

-- `Next`: past the last IPv4 address comes the value that is no address.
abbrev pub next : Addr → Addr
next (v4 n) = if n + 1 == 2 ^ 32 then no_addr 0 else v4 (n + 1)
next (no_addr n) = no_addr ((n + 1) % 2 ^ 128)

-- ip.Compare(last) < 0: what is no address has fewer bits than an address, and comes before it.
abbrev pub is_before : Addr → ℕ → Bool
is_before (v4 n) last = ltb n last
is_before (no_addr _) last = true

pub record Bytes : Type 0 where
  pub b0 : ℕ
  pub b1 : ℕ
  pub b2 : ℕ
  pub b3 : ℕ

abbrev pub as4 : ℕ → Bytes
as4 n = record { b0 = n / 2 ^ 24; b1 = n / 2 ^ 16 % 256; b2 = n / 2 ^ 8 % 256; b3 = n % 256 }

abbrev pub addr_from4 : Bytes → ℕ
addr_from4 b = b.b0 * 2 ^ 24 + b.b1 * 2 ^ 16 + b.b2 * 2 ^ 8 + b.b3

dotted : Bytes → String
dotted b =
    itoa (pos b.b0)
    <> ("." <> (itoa (pos b.b1) <> ("." <> (itoa (pos b.b2) <> ("." <> itoa (pos b.b3))))))

-- ip.String()
unfoldable pub addr_string : Addr → String
unfolding dotted
addr_string (v4 n) = dotted (as4 n)
addr_string (no_addr _) = "invalid IP"

pub record Prefix : Type 0 where
  pub addr : ℕ
  pub bits : ℕ

-- prefix.Masked().Addr()
unfoldable pub masked : Prefix → ℕ
masked p = p.addr / 2 ^ (32 - p.bits) * 2 ^ (32 - p.bits)

-- b | 1<<j on a byte
unfoldable pub or_bit : ℕ → ℕ → ℕ
or_bit j b = if b / 2 ^ j % 2 == 1 then b else b + 2 ^ j

-- b[3-(i/8)] |= 1 << (i % 8), for i below 32
unfoldable pub set_bit : ℕ → Bytes → Bytes
unfolding or_bit
set_bit i b =
    if i / 8 == 0
    then record b { b3 = or_bit (i % 8) b.b3 }
    else if i / 8 == 1
    then record b { b2 = or_bit (i % 8) b.b2 }
    else if i / 8 == 2
    then record b { b1 = or_bit (i % 8) b.b1 }
    else record b { b0 = or_bit (i % 8) b.b0 }

-- The loop over `n` bits from bit `i` on.
unfoldable pub set_bits : ℕ → ℕ → Bytes → Bytes
set_bits zero i b = b
set_bits (suc n) i b = set_bits n (suc i) (set_bit i b)

unfoldable pub broadcast_addr : ℕ → ℕ → ℕ
broadcast_addr addr bits = addr_from4 (set_bits (32 - bits) 0 (as4 addr))

-- The loop of `generateIPs`; `none` when the fuel is used up.
unfoldable pub hosts_loop : ℕ → Addr → ℕ → Option (List Addr)
hosts_loop zero ip last = none
hosts_loop (suc f) ip last =
    let rest = Option.map (λ ips. ip ∷ ips) (hosts_loop f (next ip) last) in
    if is_before ip last then rest else some []

-- A subnet that is no IPv4 prefix is `none`. The addresses are printed by `addr_string`.
unfoldable pub generate_ips : ℕ → Option Prefix → Option (List Addr)
generate_ips fuel none = some []
generate_ips fuel (some p) =
    let first = masked p in hosts_loop fuel (next (v4 first)) (broadcast_addr first p.bits)

-- An address of an interface that is a net.IPNet: its IPv4 address, if it has one, and the size of
-- its mask.
pub record IpNet : Type 0 where
  pub ip4 : Option ℕ
  pub ones : ℕ
  pub mask_bits : ℕ

-- An address of another kind, and a list that cannot be read, are `none`.
pub record Interface : Type 0 where
  pub name : String
  pub is_loopback : Bool
  pub is_up : Bool
  pub addrs : Option (List (Option IpNet))

abbrev pub capped : ℕ → ℕ
capped ones = if ltb ones 24 then 24 else ones

-- The subnet of one address of an interface: `ParseCIDR` masks it.
abbrev pub suitable_ip : Option ℕ → ℕ → ℕ → Option Prefix
suitable_ip none ones mask_bits = none
suitable_ip (some ip) ones mask_bits =
    if ip / 2 ^ 24 == 127
    then none
    else if ones == 0 || not (mask_bits == 32)
    then none
    else some
        (record { addr = masked (record { addr = ip; bits = capped ones }); bits = capped ones })

abbrev pub suitable : Option IpNet → Option Prefix
suitable none = none
suitable (some n) = suitable_ip n.ip4 n.ones n.mask_bits

unfoldable pub first_suitable : List (Option IpNet) → Option Prefix
first_suitable [] = none
first_suitable (a ∷ rest) =
    let later = first_suitable rest in elim (suitable a) [ some p ↦ some p | none ↦ later ]

abbrev pub addrs_subnet : Option (List (Option IpNet)) → Option Prefix
addrs_subnet none = none
addrs_subnet (some addrs) = first_suitable addrs

unfoldable pub interface_subnet : Interface → Option Prefix
interface_subnet i =
    if i.is_loopback || not i.is_up
    then none
    else if i.name == "docker0" || has_prefix i.name "br-" || has_prefix i.name "veth"
    then none
    else addrs_subnet i.addrs

-- `none` is the error that no interface is suitable.
unfoldable pub get_local_subnet : List Interface → Option Prefix
get_local_subnet [] = none
get_local_subnet (i ∷ rest) =
    let later = get_local_subnet rest in
    elim (interface_subnet i) [ some p ↦ some p | none ↦ later ]
