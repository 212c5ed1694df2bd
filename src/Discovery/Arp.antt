-- ===== src/Discovery/Arp.antt =====
-- internal/discovery/arp_linux.go: which hosts are asked by ARP, the frames, and which hosts answered.
-- The socket is a parameter: the frames that it gives until its timeout are a list, each as long as
-- what was read. A byte is a number below 256. A mask is the number of its ones.
pub mod Frames
pub mod Swept
use homelab_homepage.Prelude.{
  ℕ, zero, suc, ◌+◌, ◌-◌, ◌*◌, ◌/◌, ◌%◌, ◌^◌, String, Bool, true, false, ◌&&◌, ◌||◌, not, Option,
  none, some, List, [], ◌∷◌, ◌++◌, ltb, ◌==◌, nat_eq, string_eq, if◌then◌else◌, contains, length,
}
use homelab_homepage.Discovery.Hosts.{Bytes, as4, addr_from4, v4, addr_string}

pub record IfaceInfo : Type 0 where
  pub index : ℕ
  pub ip : ℕ
  pub ones : ℕ
  pub mac : List ℕ

-- What the code reads of an interface; an address that is none of IPv4's is `none`.
pub record ArpInterface : Type 0 where
  pub index : ℕ
  pub is_up : Bool
  pub is_loopback : Bool
  pub mac : List ℕ
  pub addrs : List (Option (ℕ × ℕ))

abbrev pub infos_of : ArpInterface → List (Option (ℕ × ℕ)) → List IfaceInfo
infos_of i [] = []
infos_of i (none ∷ rest) = infos_of i rest
infos_of i (some (ip, ones) ∷ rest) =
    record { index = i.index; ip = ip; ones = ones; mac = i.mac } ∷ infos_of i rest

unfoldable pub build_iface_infos : List ArpInterface → List IfaceInfo
build_iface_infos [] = []
build_iface_infos (i ∷ rest) =
    let infos = build_iface_infos rest in
    if not i.is_up || (i.is_loopback || ltb (length i.mac) 6)
    then infos
    else infos_of i i.addrs ++ infos

-- a.Mask(m).Equal(b.Mask(m))
abbrev pub same_net : ℕ → ℕ → ℕ → Bool
same_net ones a b = a / 2 ^ (32 - ones) == b / 2 ^ (32 - ones)

unfoldable pub exact_iface : List IfaceInfo → ℕ → Option IfaceInfo
exact_iface [] target = none
exact_iface (i ∷ rest) target =
    let later = exact_iface rest target in if same_net i.ones i.ip target then some i else later

unfoldable pub near_iface : List IfaceInfo → ℕ → Option IfaceInfo
near_iface [] target = none
near_iface (i ∷ rest) target =
    let later = near_iface rest target in if same_net 24 i.ip target then some i else later

unfoldable pub find_iface_for_ip : List IfaceInfo → ℕ → Option IfaceInfo
find_iface_for_ip infos target =
    let near = near_iface infos target in
    elim (exact_iface infos target) [ some i ↦ some i | none ↦ near ]

abbrev bytes_of : ℕ → List ℕ
bytes_of ip = let b = as4 ip in b.b0 ∷ b.b1 ∷ b.b2 ∷ b.b3 ∷ []

-- The frame of 42 bytes, for an address of six bytes.
unfoldable pub build_arp_request : List ℕ → ℕ → ℕ → List ℕ
build_arp_request src_mac src_ip dst_ip =
    (0xff ∷ 0xff ∷ 0xff ∷ 0xff ∷ 0xff ∷ 0xff ∷ [])
    ++ (src_mac
        ++ ((0x08 ∷ 0x06 ∷ 0x00 ∷ 0x01 ∷ 0x08 ∷ 0x00 ∷ 6 ∷ 4 ∷ 0x00 ∷ 0x01 ∷ [])
            ++ (src_mac ++ (bytes_of src_ip ++ ((0 ∷ 0 ∷ 0 ∷ 0 ∷ 0 ∷ 0 ∷ []) ++ bytes_of dst_ip)))))

-- v<<8 | v>>8 on 16 bits; the two parts have no bit in common.
unfoldable pub arp_htons : ℕ → ℕ
arp_htons v = v * 256 % 2 ^ 16 + v / 256

-- buf[i]
abbrev pub byte_at : ℕ → List ℕ → ℕ
byte_at i [] = 0
byte_at zero (b ∷ bs) = b
byte_at (suc i) (b ∷ bs) = byte_at i bs

unfoldable pub is_reply : List ℕ → Bool
is_reply buf =
    (byte_at 12 buf == 0x08 && byte_at 13 buf == 0x06)
    && (byte_at 20 buf == 0x00 && byte_at 21 buf == 0x02)

-- net.IP(buf[28:32]).String()
unfoldable pub sender_ip : List ℕ → String
sender_ip buf = addr_string (
    v4 (
      addr_from4 (record {
        b0 = byte_at 28 buf;
        b1 = byte_at 29 buf;
        b2 = byte_at 30 buf;
        b3 = byte_at 31 buf;
      })))

-- The loop that reads; a read that fails, or gives a short frame, ends it.
unfoldable pub read_replies : List String → List (Option (List ℕ)) → List String → List String
read_replies targets [] live = live
read_replies targets (none ∷ frames) live = live
read_replies targets (some buf ∷ frames) live =
    if ltb (length buf) 42
    then live
    else read_replies targets frames
        (if is_reply buf && contains targets (sender_ip buf) then sender_ip buf ∷ live else live)

-- `parse_ip4` is net.ParseIP(ip).To4().
module _ (parse_ip4 : String → Option ℕ) where
  abbrev pub is_target : List IfaceInfo → Option ℕ → Bool
  is_target infos none = false
  is_target infos (some ip) = elim (find_iface_for_ip infos ip) [ some i ↦ true | none ↦ false ]

  -- The hosts to which a request is sent.
  unfoldable pub arp_targets : List IfaceInfo → List String → List String
  arp_targets infos [] = []
  arp_targets infos (ip ∷ ips) =
      let rest = arp_targets infos ips in if is_target infos (parse_ip4 ip) then ip ∷ rest else rest

  -- `arpSweep`, where the socket can be opened.
  unfoldable pub arp_sweep : List IfaceInfo → List String → List (Option (List ℕ)) → List String
  arp_sweep infos ips frames = read_replies (arp_targets infos ips) frames []
