-- ===== src/Discovery/Arp/Frames.antt =====
-- internal/discovery/arp_linux.go: the frames of requests and replies, and the byte order.
use homelab_homepage.Prelude.{
  ℕ, ◌+◌, ◌*◌, ◌^◌, ◌<◌, ◌≡◌, refl, arith, [], ◌∷◌, length, false, nat_eq, ℕ_discrete,
}
use homelab_homepage.Discovery.Hosts.{addr_from4}
use homelab_homepage.Discovery.Arp.{build_arp_request, arp_htons, byte_at, is_reply}

pub arp_htons_lem :
    (hi lo : ℕ)
    → hi < 256
    → lo < 256
    → (arp_htons (hi * 256 + lo) ≡ lo * 256 + hi)
      × (arp_htons (arp_htons (hi * 256 + lo)) ≡ hi * 256 + lo)
unfolding arp_htons
arp_htons_lem hi lo h l = omega arith

pub build_arp_request_lem :
    (a b c d e f src dst : ℕ)
    → src < 2 ^ 32
    → dst < 2 ^ 32
    → let mac = a ∷ b ∷ c ∷ d ∷ e ∷ f ∷ [] in
      let pkt = build_arp_request mac src dst in
      (length pkt ≡ 42)
      × (is_reply pkt ≡ false)
      × (byte_at 12 pkt * 256 + byte_at 13 pkt ≡ 0x0806)
      × (byte_at 20 pkt * 256 + byte_at 21 pkt ≡ 1)
      × (addr_from4 (record {
        b0 = byte_at 28 pkt;
        b1 = byte_at 29 pkt;
        b2 = byte_at 30 pkt;
        b3 = byte_at 31 pkt;
      })
          ≡ src)
      × (addr_from4 (record {
        b0 = byte_at 38 pkt;
        b1 = byte_at 39 pkt;
        b2 = byte_at 40 pkt;
        b3 = byte_at 41 pkt;
      })
          ≡ dst)
unfolding build_arp_request is_reply ℕ_discrete
build_arp_request_lem a b c d e f src dst s t =
    (refl, refl, refl, refl, omega (arith, s), omega (arith, t))
