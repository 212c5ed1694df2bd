-- ===== src/Discovery/Target.antt =====
-- The port and target helpers of internal/discovery/docker.go.
pub mod RoundTrip
pub mod Inspected
pub mod Ports
use mathlib.Core.Option
use homelab_homepage.Prelude.{
  ℕ, String, ◌<>◌, Bool, ◌&&◌, Option, none, some, List, [], ◌∷◌, map, ltb, ◌==◌, string_eq, nat_eq,
  keep, find, contains, ℤ, pos,
}
use homelab_homepage.Go.Text.{trim_prefix, trim_suffix, cut_last, cut, or_else}
use homelab_homepage.Go.Number.{itoa, atoi}

-- A port of a container: `Type`, `PrivatePort` and `PublicPort`.
pub record PortSummary : Type 0 where
  pub kind : String
  pub private_port : ℕ
  pub public_port : ℕ

abbrev pub preferred : List ℕ
preferred = 80 ∷ 8080 ∷ 3000 ∷ 5000 ∷ 9443 ∷ 9000 ∷ 8096 ∷ 8123 ∷ 443 ∷ 8443 ∷ 8000 ∷ []

abbrev pub is_published : PortSummary → Bool
is_published p = p.kind == "tcp" && ltb 0 p.public_port

abbrev pub port_of : PortSummary → ℕ
port_of p = p.public_port

-- The keys of `portSet`.
abbrev pub port_set : List PortSummary → List ℕ
port_set ports = map port_of (keep is_published ports)

abbrev pub first_published : List PortSummary → ℕ
first_published ports = or_else (Option.map port_of (find is_published ports)) 0

unfoldable pub best_port : List PortSummary → ℕ
best_port ports = or_else (find (contains (port_set ports)) preferred) (first_published ports)

-- fmt.Sprintf("%s://%s:%d", scheme, ip, port)
unfoldable pub target_of : String → String → ℤ → String
target_of scheme ip port = scheme <> ("://" <> (ip <> (":" <> itoa port)))

abbrev pub host_and_port : String → Option (String × String) → String × ℤ
host_and_port s none = (s, pos 0)
host_and_port s (some (host, port)) = (host, (atoi port).0)

unfoldable pub split_target : String → String × ℤ
split_target target =
    let s = trim_suffix (trim_prefix (trim_prefix target "http://") "https://") "/" in
    host_and_port s (cut_last b':' s)

abbrev pub with_scheme : String → Option (String × String) → Option (String × String) → String
with_scheme new_target (some (before, _)) (some (_, rest)) = before <> ("://" <> rest)
with_scheme new_target _ _ = new_target

unfoldable pub preserve_scheme : String → String → String
preserve_scheme old_target new_target =
    with_scheme new_target (cut "://" old_target) (cut "://" new_target)
