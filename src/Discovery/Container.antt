-- ===== src/Discovery/Container.antt =====
-- internal/discovery/docker.go: what the labels and the ports of a container say of it. The regular
-- expression for Traefik's rules, the lower case of characters that are not ASCII, and the probe of
-- a port are parameters.
use Prim.Native.Char.{Char}
use homelab_homepage.Prelude.{
  String, ◌<>◌, Bool, ◌&&◌, ◌||◌, Option, none, some, List, [], ◌∷◌, ◌==◌, ◌!=◌, string_eq, int_eq,
  if◌then◌else◌, ℤ, pos,
}
use homelab_homepage.Go.Map.{Map, lookup}
use homelab_homepage.Go.Text.{has_prefix, has_suffix, trim_suffix, or_else}
use homelab_homepage.Go.Number.{atoi}
use homelab_homepage.Util.{is_https_port}
use homelab_homepage.Util.Subdomain.{map_chars, to_lower_char, sanitise_subdomain}
use homelab_homepage.Discovery.Target.{PortSummary, best_port, target_of}

-- What the code takes from outside: the domain and address of `cfg`, and the three functions.
pub record Outside : Type 0 where
  pub domain : String
  pub server_ip : String
  pub lower : Char → Char
  pub find_host : String → Option String
  pub scheme_reachable : String → ℤ → String → Bool

pub record ContainerInfo : Type 0 where
  pub name : String
  pub subdomain : String
  pub target : String

-- labels[k]: a missing label is empty
unfoldable pub label : String → Map String → String
label k labels = or_else (lookup k labels) ""

module _ (out : Outside) where
  abbrev pub sanitise : String → String
  sanitise = sanitise_subdomain out.lower

  -- The loops over the labels, in the order in which `range` visits them.
  abbrev pub subdomain_of_host : String → String
  subdomain_of_host host =
      if out.domain != "" && has_suffix host ("." <> out.domain)
      then trim_suffix host ("." <> out.domain)
      else sanitise host

  abbrev pub is_router_rule : String → Bool
  is_router_rule k = has_prefix k "traefik.http.routers." && has_suffix k ".rule"

  abbrev pub host_or : String → Option String → String
  host_or later none = later
  host_or later (some m) = subdomain_of_host (map_chars (to_lower_char out.lower) m)

  unfoldable pub traefik_subdomain : Map String → String
  traefik_subdomain [] = ""
  traefik_subdomain ((k, v) ∷ labels) =
      let later = traefik_subdomain labels in
      if is_router_rule k then host_or later (out.find_host v) else later

  abbrev pub is_service_port : String → Bool
  is_service_port k =
      has_prefix k "traefik.http.services." && has_suffix k ".loadbalancer.server.port"

  unfoldable pub traefik_port : Map String → ℤ
  traefik_port [] = pos 0
  traefik_port ((k, v) ∷ labels) =
      let later = traefik_port labels in if is_service_port k then (atoi v).0 else later

  -- The guess by port first, then the other scheme, then the guess.
  unfoldable pub detect_scheme : ℤ → String
  detect_scheme port =
      let scheme = if is_https_port port then "https" else "http" in
      let alt = if scheme == "https" then "http" else "https" in
      if out.scheme_reachable out.server_ip port scheme
      then scheme
      else if out.scheme_reachable out.server_ip port alt
      then alt
      else scheme

  unfoldable pub container_subdomain : String → Map String → String
  container_subdomain name labels =
      let s = label "lantern.subdomain" labels in
      let sub = traefik_subdomain labels in
      if s != "" then sanitise s else if sub != "" then sub else sanitise name

  abbrev pub or_port : ℤ → ℤ → ℤ
  or_port port next = if port == pos 0 then next else port

  unfoldable pub container_port : List PortSummary → Map String → ℤ
  container_port ports labels =
      let p = label "lantern.port" labels in
      or_port (or_port (if p != "" then (atoi p).0 else pos 0) (traefik_port labels))
        (pos (best_port ports))

  unfoldable pub container_scheme : ℤ → Map String → String
  container_scheme port labels =
      let s = label "lantern.scheme" labels in
      if s == "https" || s == "http" then s else detect_scheme port

  abbrev pub or_text : String → String → String
  or_text a b = if a != "" then a else b

  -- `none` stands for nil: no port is known.
  unfoldable pub resolve_container : String → List PortSummary → Map String → Option ContainerInfo
  resolve_container name ports labels =
      let shown = or_text (label "lantern.name" labels) name in
      let url = label "lantern.url" labels in
      let sub = label "lantern.subdomain" labels in
      let port = container_port ports labels in
      if url != ""
      then some (record {
        name = shown;
        subdomain = if sub != "" then sanitise sub else sanitise name;
        target = url;
      })
      else if port == pos 0
      then none
      else some (record {
        name = shown;
        subdomain = container_subdomain name labels;
        target = target_of (container_scheme port labels) out.server_ip port;
      })
