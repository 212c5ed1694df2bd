-- ===== src/Discovery/Probe/Scheme.antt =====
-- internal/discovery/network.go: the order of the schemes in `probeHTTP` and `detectScheme`, and the
-- collected hosts.
use homelab_homepage.Prelude.{
  String, true, ◌||◌, none, List, [], ◌∷◌, ◌≡◌, ◌≢◌, refl, arith, ◌==◌, string_eq, string_dec, ℤ,
  contains, any, ◌⊎◌, differ, ◌↔◌,
}
use homelab_homepage.Store.Settings.{Unique, add_unique, add_unique-set}
use homelab_homepage.Discovery.Probe.{
  Net, probe_http, try_probe, default_scheme, alt_scheme, scheme_reachable, detect_scheme, add_host,
  add_hosts, collect_hosts,
}

-- The other one of the two schemes.
abbrev pub IsScheme : String → Type 0
IsScheme s = (s ≡ "http") ⊎ (s ≡ "https")

default_scheme-IsScheme : (port : ℤ) → IsScheme (default_scheme port)
unfolding default_scheme
default_scheme-IsScheme port = ground arith

abbrev http : String
http = "http"

https-differs : http ≢ "https"
unfolding string_dec
https-differs = differ http "https" refl

-- The default scheme and the other one are http and https, in some order.
schemes :
    (port : ℤ)
    → ((default_scheme port ≡ "http") × (alt_scheme (default_scheme port) ≡ "https"))
      ⊎ ((default_scheme port ≡ "https") × (alt_scheme (default_scheme port) ≡ "http"))
schemes port = ground (arith, default_scheme-IsScheme port, https-differs)

pub detect_scheme_lem :
    (net : Net) (ip : String) (port : ℤ)
    → IsScheme (detect_scheme net ip port)
      × ((s : String)
          → IsScheme s
          → scheme_reachable net ip port s ≡ true
          → scheme_reachable net ip port (detect_scheme net ip port) ≡ true)
      × (scheme_reachable net ip port "http" ≡ scheme_reachable net ip port "https"
          → detect_scheme net ip port ≡ default_scheme port)
unfolding detect_scheme
detect_scheme_lem net ip port = (
  ground (arith, schemes port),
  λ s h r. ground (arith, schemes port),
  ground (arith, schemes port),
)

pub probe_http_lem :
    (net : Net) (ip : String) (port : ℤ)
    → ((probe_http net ip port ≡ none)
        ↔ ((try_probe net ip port "http" ≡ none) × (try_probe net ip port "https" ≡ none)))
      × (try_probe net ip port (default_scheme port) ≢ none
          → probe_http net ip port ≡ try_probe net ip port (default_scheme port))
unfolding probe_http
probe_http_lem net ip port = (ground (arith, schemes port), ground arith)

add_host_lem :
    (ip : String) (ips : List String)
    → Unique ips
    → Unique (add_host ip ips)
      × ((s : String) → contains (add_host ip ips) s ≡ (ip == s || contains ips s))
unfolding add_host add_unique
add_host_lem ip ips u = add_unique-set ip ips u

add_hosts_lem :
    (hosts ips : List String)
    → Unique ips
    → Unique (add_hosts hosts ips)
      × ((s : String) → contains (add_hosts hosts ips) s ≡ (contains hosts s || contains ips s))
unfolding add_hosts
add_hosts_lem [] ips u = (u, λ s. refl)
add_hosts_lem (ip ∷ hosts) ips u =
    let (u1, h1) = add_host_lem ip ips u in
    let (u2, h2) = add_hosts_lem hosts (add_host ip ips) u1 in (u2, λ s. ground (arith, h1 s, h2 s))

collect_lem :
    (nets : List (List String)) (ips : List String)
    → Unique ips
    → Unique (collect_hosts nets ips)
      × ((s : String)
          → contains (collect_hosts nets ips) s
            ≡ (any (λ hosts. contains hosts s) nets || contains ips s))
unfolding collect_hosts
collect_lem [] ips u = (u, λ s. refl)
collect_lem (hosts ∷ nets) ips u =
    let (u1, h1) = add_hosts_lem hosts ips u in
    let (u2, h2) = collect_lem nets (add_hosts hosts ips) u1 in
    (u2, λ s. ground (arith, h1 s, h2 s))

pub collect_hosts-Unique :
    (nets : List (List String))
    → Unique (collect_hosts nets [])
      × ((s : String) → contains (collect_hosts nets []) s ≡ any (λ hosts. contains hosts s) nets)
collect_hosts-Unique nets = let (u, h) = collect_lem nets [] tt in (u, λ s. ground (arith, h s))
