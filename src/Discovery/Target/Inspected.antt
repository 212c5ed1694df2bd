-- ===== src/Discovery/Target/Inspected.antt =====
-- internal/discovery/docker.go: the ports of a container that has been inspected. The map of its
-- network settings is a list of entries, in the order of `range`.
use homelab_homepage.Prelude.{
  ℕ, ◌^◌, ◌<◌, String, Bool, true, ◌||◌, Option, none, some, List, [], ◌∷◌, ◌++◌, any, ◌≡◌, refl,
  arith, pos, string_eq, nat_eq, contains, ◌∙◌,
}
use homelab_homepage.Go.Number.{itoa, parse_uint16, parse_uint16-itoa}
use homelab_homepage.Discovery.Target.{PortSummary, best_port}
use homelab_homepage.Discovery.Target.Ports.{is_at, best_port-published, any-published}

-- A key of network.PortMap, and the field HostPort of each binding.
pub record PortEntry : Type 0 where
  pub port : String
  pub proto : String
  pub host_ports : List String

unfoldable pub bound_ports : String → ℕ → List String → List PortSummary
bound_ports proto priv [] = []
bound_ports proto priv (b ∷ bindings) =
    let rest = bound_ports proto priv bindings in
    elim (parse_uint16 b) [
      | some pub_port ↦ record { kind = proto; private_port = priv; public_port = pub_port } ∷ rest
      | none ↦ rest
    ]

-- The bindings of one key, whose port may be no number.
abbrev pub entry_ports : PortEntry → Option ℕ → List PortSummary
entry_ports e none = []
entry_ports e (some priv) = bound_ports e.proto priv e.host_ports

unfoldable pub ports_from_network : List PortEntry → List PortSummary
ports_from_network [] = []
ports_from_network (e ∷ entries) = entry_ports e (parse_uint16 e.port) ++ ports_from_network entries

any-append :
    (p : PortSummary → Bool) (xs ys : List PortSummary) → any p (xs ++ ys) ≡ (any p xs || any p ys)
any-append p [] ys = refl
any-append p (x ∷ xs) ys = ground (arith, any-append p xs ys)

bound_ports-at :
    (priv n : ℕ) (bindings : List String)
    → 0 < n
    → n < 2 ^ 16
    → contains bindings (itoa (pos n)) ≡ true
    → any (is_at n) (bound_ports "tcp" priv bindings) ≡ true
unfolding bound_ports
bound_ports-at priv n [] l h there = ground (arith, there)
bound_ports-at priv n (b ∷ bindings) l h there =
    ground (arith, there, l, bound_ports-at priv n bindings l h, parse_uint16-itoa n h)

ports_from_network-at :
    (before : List PortEntry) (e : PortEntry) (after : List PortEntry) (priv n : ℕ)
    → e.proto ≡ "tcp"
    → parse_uint16 e.port ≡ some priv
    → 0 < n
    → n < 2 ^ 16
    → contains e.host_ports (itoa (pos n)) ≡ true
    → any (is_at n) (ports_from_network (before ++ e ∷ after)) ≡ true
unfolding ports_from_network
ports_from_network-at [] e after priv n tcp port l h there =
    any-append (is_at n) (entry_ports e (parse_uint16 e.port)) (ports_from_network after)
    ∙ ground (arith, tcp, port, bound_ports-at priv n e.host_ports l h there)
ports_from_network-at (o ∷ before) e after priv n tcp port l h there =
    any-append (is_at n) (entry_ports o (parse_uint16 o.port))
      (ports_from_network (before ++ e ∷ after))
    ∙ ground (arith, ports_from_network-at before e after priv n tcp port l h there)

-- If a TCP port is bound to a port of the host, then the port that is chosen of the inspected
-- container is one that some TCP port is bound to.
pub best_port-inspected :
    (before : List PortEntry) (e : PortEntry) (after : List PortEntry) (priv n : ℕ)
    → e.proto ≡ "tcp"
    → parse_uint16 e.port ≡ some priv
    → 0 < n
    → n < 2 ^ 16
    → contains e.host_ports (itoa (pos n)) ≡ true
    → let ports = ports_from_network (before ++ e ∷ after) in
      any (is_at (best_port ports)) ports ≡ true
best_port-inspected before e after priv n tcp port l h there =
    let ports = ports_from_network (before ++ e ∷ after) in
    (best_port-published ports).0
      (any-published n ports (ports_from_network-at before e after priv n tcp port l h there))
