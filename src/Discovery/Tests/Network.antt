-- ===== src/Discovery/Tests/Network.antt =====
-- Subnets, hosts, ports and the log of scans at concrete inputs.
use homelab_homepage.Prelude.{
  ℕ, ◌+◌, ◌-◌, ◌^◌, ◌≤◌, String, ◌<>◌, ◌≡◌, refl, true, false, Option, none, some, List, [], ◌∷◌,
  ◌++◌, arith, pos, inl, contains, length, ltb, if◌then◌else◌, ◌==◌, string_eq, nat_eq, string_dec,
  ℕ_discrete,
}
use homelab_homepage.Discovery.Hosts.{
  Addr, Prefix, masked, generate_ips, Interface, get_local_subnet, interface_subnet, first_suitable,
}
use homelab_homepage.Go.Text.{has_prefix, strip_prefix}
use homelab_homepage.Discovery.Hosts.Listed.{between, generate_ips-between, generate_ips-endless}
use homelab_homepage.Discovery.Hosts.Local.{AreInterfaces, get_local_subnet-hosts}
use homelab_homepage.Discovery.Signatures.{signatures, fingerprint}
use homelab_homepage.Discovery.Signatures.First.{IsFirst, fingerprint-IsFirst}
use homelab_homepage.Discovery.Probe.{Net, OpenPort, no_probing, probe_all}
use homelab_homepage.Discovery.Probe.Once.{AreDistinct, ArePorts, open_port_eq, probe_all-probed}
use homelab_homepage.Discovery.Arp.{
  IfaceInfo, arp_sweep, find_iface_for_ip, exact_iface, near_iface, is_target,
}
use homelab_homepage.Discovery.Arp.Swept.{scanned, alive_hosts-remote}
use homelab_homepage.Discovery.ScanState.{new, logf}
use homelab_homepage.Discovery.ScanState.Bounded.{kept, logf_lem}

-- 10.0.0.9/30
abbrev home : Prefix
home = record { addr = 167772169; bits = 30 }

generate_ips-between_example :
    generate_ips 4 (some home) ≡ some (between (masked home + 1) (2 ^ (32 - home.bits) - 2))
generate_ips-between_example =
    generate_ips-between 4 home (omega arith) (omega arith) (inl (omega arith)) (omega arith)

generate_ips-endless_example :
    generate_ips 1000 (some (record { addr = 4294967295; bits = 32 })) ≡ none
generate_ips-endless_example = generate_ips-endless 1000 4294967295 refl

-- 192.168.1.20/16, on an interface after a bridge of Docker's.
abbrev interfaces : List Interface
interfaces =
    record { name = "br-1"; is_loopback = false; is_up = true; addrs = some [] }
    ∷ record {
      name = "eth0";
      is_loopback = false;
      is_up = true;
      addrs = some (some (record { ip4 = some 3232235796; ones = 16; mask_bits = 32 }) ∷ []);
    }
    ∷ []

abbrev local : Prefix
local = record { addr = 3232235776; bits = 24 }

interfaces-AreInterfaces : AreInterfaces interfaces
interfaces-AreInterfaces = (tt, (((omega arith, omega arith), tt), tt))

interfaces-local : get_local_subnet interfaces ≡ some local
unfolding get_local_subnet interface_subnet first_suitable masked string_dec ℕ_discrete has_prefix
    strip_prefix
interfaces-local = refl

get_local_subnet-hosts_example :
    (ips : List Addr) × (generate_ips 256 (some local) ≡ some ips) × (length ips ≤ 254)
get_local_subnet-hosts_example =
    get_local_subnet-hosts interfaces local interfaces-AreInterfaces interfaces-local

fingerprint-IsFirst_example :
    IsFirst signatures (λ k. "") "" "Jellyfin" (fingerprint (λ k. "") "" "Jellyfin")
fingerprint-IsFirst_example = fingerprint-IsFirst (λ k. "") "" "Jellyfin"

abbrev net : Net
net = record {
  fetch = λ url.
      some (record { status_code = 200; body = some "<title>NAS</title>"; header = λ k. "" });
  lookup_addr = λ ip. [];
  title_of = λ body. "NAS";
  favicon_of = λ body url. "";
}

-- One port is found by two paths.
abbrev ports : List OpenPort
ports =
    record { ip = "10.0.0.9"; port = pos 80 }
    ∷ record { ip = "10.0.0.9"; port = pos 8080 }
    ∷ record { ip = "10.0.0.9"; port = pos 80 }
    ∷ []

ports-ArePorts : ArePorts ports
ports-ArePorts =
    ((80, refl, omega arith), ((8080, refl, omega arith), ((80, refl, omega arith), tt)))

probe_all-probed_example :
    AreDistinct (probe_all net ports no_probing).probed
    × ((o : OpenPort) → contains (probe_all net ports no_probing).probed o ≡ contains ports o)
probe_all-probed_example = probe_all-probed net ports ports-ArePorts

abbrev parse_ip4 : String → Option ℕ
parse_ip4 ip = if ip == "10.0.0.9" then some 167772169 else some 167772673

-- eth0 at 10.0.0.4/24
abbrev infos : List IfaceInfo
infos = record { index = 2; ip = 167772164; ones = 24; mac = 2 ∷ 0 ∷ 0 ∷ 0 ∷ 0 ∷ 1 ∷ [] } ∷ []

abbrev ips : List String
ips = "10.0.0.9" ∷ "10.0.2.1" ∷ []

-- The reply of 10.0.0.9.
abbrev reply : List ℕ
reply =
    (2 ∷ 0 ∷ 0 ∷ 0 ∷ 0 ∷ 1 ∷ 2 ∷ 0 ∷ 0 ∷ 0 ∷ 0 ∷ 9 ∷ 8 ∷ 6 ∷ [])
    ++ (0 ∷ 1 ∷ 8 ∷ 0 ∷ 6 ∷ 4 ∷ 0 ∷ 2 ∷ 2 ∷ 0 ∷ 0 ∷ 0 ∷ 0 ∷ 9 ∷ [])
    ++ (10 ∷ 0 ∷ 0 ∷ 9 ∷ 2 ∷ 0 ∷ 0 ∷ 0 ∷ 0 ∷ 1 ∷ 10 ∷ 0 ∷ 0 ∷ 4 ∷ [])

remote : is_target parse_ip4 infos (parse_ip4 "10.0.2.1") ≡ false
unfolding find_iface_for_ip exact_iface near_iface string_dec ℕ_discrete
remote = refl

alive_hosts-remote_example : contains (scanned parse_ip4 infos ips (some reply ∷ [])) "10.0.2.1" ≡ (
    if ltb 0 (length (arp_sweep parse_ip4 infos ips (some reply ∷ [])))
    then false
    else contains ips "10.0.2.1")
alive_hosts-remote_example =
    alive_hosts-remote parse_ip4 infos ips (some reply ∷ []) "10.0.2.1" remote

logf_lem_example :
    ((logf "10:00:00" "scan started" new).log_lines
      ≡ kept new.log_lines ++ ("10:00:00" <> (" " <> "scan started")) ∷ [])
    × (length new.log_lines ≤ 400 → length (logf "10:00:00" "scan started" new).log_lines ≤ 400)
logf_lem_example = logf_lem "10:00:00" "scan started" new
