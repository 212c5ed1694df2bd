-- ===== src/Discovery/Probe.antt =====
-- internal/discovery/network.go: which hosts and ports are probed, and by which scheme. The HTTP
-- client, the resolver, the title of a page and its icon are parameters.
pub mod Once
pub mod Scheme
use homelab_homepage.Prelude.{
  ℕ, zero, suc, ◌+◌, String, ◌<>◌, Bool, true, false, ◌&&◌, ◌||◌, not, Option, none, some, List, [],
  ◌∷◌, ◌++◌, ◌==◌, string_eq, nat_eq, if◌then◌else◌, ℤ, pos, contains, keep, length, ltb,
}
use homelab_homepage.Go.Number.{itoa, atoi}
use homelab_homepage.Go.Text.{trim_suffix}
use homelab_homepage.Util.{is_https_port}
use homelab_homepage.Discovery.Signatures.{fingerprint}

-- openPort
pub record OpenPort : Type 0 where
  pub ip : String
  pub port : ℤ

-- What the code reads of an answer: `body` is `none` if it cannot be read.
pub record Response : Type 0 where
  pub status_code : ℕ
  pub body : Option String
  pub header : String → String

-- `fetch` is `httpClient.Do` of a GET, with `none` for an error of it or of the request; `lookup_addr`
-- gives no names if it fails; `title_of` is `extractTitle`, and `favicon_of` is
-- `FetchFaviconFromHTML`, whose bytes are empty if it finds none.
pub record Net : Type 0 where
  pub fetch : String → Option Response
  pub lookup_addr : String → List String
  pub title_of : String → String
  pub favicon_of : String → String → String

pub record Probe : Type 0 where
  pub ip : String
  pub port : ℤ
  pub url : String
  pub title : String
  pub icon : String
  pub icon_bytes : String
  pub service_name : String
  pub confidence : ℕ

-- store.IconFile
abbrev pub icon_file : String
icon_file = "file"

unfoldable pub raw_url : String → String → ℤ → String
raw_url scheme ip port = scheme <> ("://" <> (ip <> (":" <> (itoa port <> "/"))))

unfoldable pub default_scheme : ℤ → String
default_scheme port = if is_https_port port then "https" else "http"

abbrev pub alt_scheme : String → String
alt_scheme scheme = if scheme == "https" then "http" else "https"

module _ (net : Net) where
  abbrev pub name_of : String → List String → String
  name_of ip [] = ip
  name_of ip (name ∷ names) = trim_suffix name "."

  abbrev pub page_title : String → String → String
  page_title ip body =
      let title = net.title_of body in
      if title == "" then name_of ip (net.lookup_addr ip) else title

  abbrev pub probe_of : String → ℤ → String → (String → String) → String → Probe
  probe_of ip port url header body =
      let title = page_title ip body in
      let (svc_name, confidence, svc_icon) = fingerprint header body title in
      let icon_bytes = net.favicon_of body url in
      record {
        ip = ip;
        port = port;
        url = url;
        title = title;
        icon = if icon_bytes == "" then svc_icon else icon_file;
        icon_bytes = icon_bytes;
        service_name = svc_name;
        confidence = confidence;
      }

  abbrev pub probe_body : String → ℤ → String → Response → Option String → Option Probe
  probe_body ip port url resp none = none
  probe_body ip port url resp (some body) =
      if resp.status_code == 400 || resp.status_code == 404
      then none
      else some (probe_of ip port url resp.header body)

  abbrev pub probe_response : String → ℤ → String → Option Response → Option Probe
  probe_response ip port url none = none
  probe_response ip port url (some resp) = probe_body ip port url resp resp.body

  unfoldable pub try_probe : String → ℤ → String → Option Probe
  try_probe ip port scheme =
      let url = raw_url scheme ip port in probe_response ip port url (net.fetch url)

  unfoldable pub probe_http : String → ℤ → Option Probe
  probe_http ip port =
      let scheme = default_scheme port in
      elim (try_probe ip port scheme) [
        | some r ↦ some r
        | none ↦ try_probe ip port (alt_scheme scheme)
      ]

  abbrev pub answers : Option Response → Bool
  answers none = false
  answers (some resp) = not (resp.status_code == 400)

  unfoldable pub scheme_reachable : String → ℤ → String → Bool
  scheme_reachable ip port scheme = answers (net.fetch (raw_url scheme ip port))

  unfoldable pub detect_scheme : String → ℤ → String
  detect_scheme ip port =
      let scheme = default_scheme port in
      if scheme_reachable ip port scheme
      then scheme
      else if scheme_reachable ip port (alt_scheme scheme)
      then alt_scheme scheme
      else scheme

-- `seen` and `ips` while the hosts of the subnets are collected; `seen` has the texts of `ips`.
unfoldable pub add_host : String → List String → List String
add_host ip ips = if contains ips ip then ips else ips ++ ip ∷ []

unfoldable pub add_hosts : List String → List String → List String
add_hosts [] ips = ips
add_hosts (ip ∷ hosts) ips = add_hosts hosts (add_host ip ips)

unfoldable pub collect_hosts : List (List String) → List String → List String
collect_hosts [] ips = ips
collect_hosts (hosts ∷ nets) ips = collect_hosts nets (add_hosts hosts ips)

-- The hosts that answered ARP, or all if none did.
unfoldable pub alive_hosts : List String → List String → List String
alive_hosts live ips = if ltb 0 (length live) then keep (contains live) ips else ips

-- `probedPorts`, with the ports that were probed, the latest first, and the results in the channel.
pub record Probing : Type 0 where
  pub probed_ports : List String
  pub probed : List OpenPort
  pub results : List Probe

abbrev pub no_probing : Probing
no_probing = record { probed_ports = []; probed = []; results = [] }

abbrev pub send : Option Probe → List Probe → List Probe
send none results = results
send (some r) results = results ++ r ∷ []

unfoldable pub port_key : OpenPort → String
port_key op = op.ip <> (":" <> itoa op.port)

module _ (net : Net) where
  -- `LoadOrStore` of the key is one step; a probe that takes long is counted where it begins.
  unfoldable pub probe_once : OpenPort → Probing → Probing
  probe_once op s = if contains s.probed_ports (port_key op) then s else record {
    probed_ports = port_key op ∷ s.probed_ports;
    probed = op ∷ s.probed;
    results = send (probe_http net op.ip op.port) s.results;
  }

  -- The calls of all paths and workers, in the order in which they reach the map.
  unfoldable pub probe_all : List OpenPort → Probing → Probing
  probe_all [] s = s
  probe_all (op ∷ ops) s = probe_all ops (probe_once op s)
