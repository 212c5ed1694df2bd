-- ===== src/Discovery/Arp/Swept.antt =====
-- internal/discovery/arp_linux.go and network.go: the hosts that are left after the ARP sweep.
use homelab_homepage.Prelude.{
  ℕ, String, true, false, ◌&&◌, Option, none, some, List, [], ◌∷◌, ◌≡◌, refl, arith, string_eq,
  if◌then◌else◌, contains, contains-keep, length, ltb, Bool-cases, inl, inr, ap, ◌⊎◌, ◌⊎◌,
}
use homelab_homepage.Discovery.Arp.{
  IfaceInfo, is_reply, sender_ip, read_replies, is_target, arp_targets, arp_sweep,
}
use homelab_homepage.Discovery.Probe.{alive_hosts}

module _ (parse_ip4 : String → Option ℕ) (infos : List IfaceInfo) where
  contains-arp_targets :
      (ips : List String) (ip : String)
      → contains (arp_targets parse_ip4 infos ips) ip
        ≡ (contains ips ip && is_target parse_ip4 infos (parse_ip4 ip))
  unfolding arp_targets
  contains-arp_targets [] ip = refl
  contains-arp_targets (i ∷ ips) ip = ground (
    arith,
    contains-arp_targets ips ip,
    λ (e : i ≡ ip). ap (λ k. is_target parse_ip4 infos (parse_ip4 k)) e,
  )

-- Only targets are added to the hosts that answered.
contains-read_replies :
    (targets : List String) (frames : List (Option (List ℕ))) (live : List String) (ip : String)
    → contains (read_replies targets frames live) ip ≡ true
    → (contains live ip ≡ true) ⊎ (contains targets ip ≡ true)
unfolding read_replies
contains-read_replies targets [] live ip h = inl h
contains-read_replies targets (none ∷ frames) live ip h = inl h
contains-read_replies targets (some buf ∷ frames) live ip h =
    elim (Bool-cases (ltb (length buf) 42)) [
      | inl e ↦ inl (ground (arith, e, h))
      | inr e ↦
          let more =
            if is_reply buf && contains targets (sender_ip buf)
            then sender_ip buf ∷ live
            else live in
          elim (contains-read_replies targets frames more ip (ground (arith, e, h))) [
            | inl there ↦ ground (arith, there, λ (q : sender_ip buf ≡ ip). ap (contains targets) q)
            | inr there ↦ inr there
          ]
    ]

module _ (parse_ip4 : String → Option ℕ) (infos : List IfaceInfo) (ips : List String)
    (frames : List (Option (List ℕ))) where
  -- What the sweep goes on with.
  abbrev pub scanned : List String
  scanned = alive_hosts (arp_sweep parse_ip4 infos ips frames) ips

  swept-target :
      (ip : String)
      → contains (arp_sweep parse_ip4 infos ips frames) ip ≡ true
      → (contains ips ip ≡ true) × (is_target parse_ip4 infos (parse_ip4 ip) ≡ true)
  unfolding arp_sweep
  swept-target ip h = ground (
    arith,
    contains-read_replies (arp_targets parse_ip4 infos ips) frames [] ip h,
    contains-arp_targets parse_ip4 infos ips ip,
  )

  -- An address that no local interface has as a neighbour is left out of the sweep if any host
  -- answers by ARP, and stays if none does.
  pub alive_hosts-remote :
      (ip : String)
      → is_target parse_ip4 infos (parse_ip4 ip) ≡ false
      → contains scanned ip
        ≡ (if ltb 0 (length (arp_sweep parse_ip4 infos ips frames)) then false else contains ips ip)
  unfolding alive_hosts
  alive_hosts-remote ip remote = ground (
    arith,
    contains-keep (contains (arp_sweep parse_ip4 infos ips frames)) ips ip,
    swept-target ip,
    remote,
  )
