-- ===== src/Discovery/Target/Ports.antt =====
-- internal/discovery/docker.go: which port `bestPort` chooses.
use homelab_homepage.Prelude.{
  ℕ, ◌≡◌, refl, Bool, true, false, ◌&&◌, List, [], ◌∷◌, ◌==◌, string_eq, nat_eq, find, contains,
  arith, any, find-mem, find-none, Option-cases, sym, ◌∙◌, inl, inr,
}
use homelab_homepage.Discovery.Target.{
  PortSummary, preferred, is_published, port_set, first_published, best_port,
}

abbrev pub is_at : ℕ → PortSummary → Bool
is_at port p = is_published p && p.public_port == port

port_set_lem :
    (ports : List PortSummary) (port : ℕ) → contains (port_set ports) port ≡ any (is_at port) ports
port_set_lem [] port = refl
port_set_lem (p ∷ ports) port = ground (arith, port_set_lem ports port)

first_published_lem :
    (ports : List PortSummary)
    → (any is_published ports ≡ true → any (is_at (first_published ports)) ports ≡ true)
      × (any is_published ports ≡ false → first_published ports ≡ 0)
first_published_lem [] = ground arith
first_published_lem (p ∷ ports) = ground (arith, first_published_lem ports)

pub any-published :
    (port : ℕ) (ports : List PortSummary)
    → any (is_at port) ports ≡ true
    → any is_published ports ≡ true
any-published port [] h = h
any-published port (p ∷ ports) h = ground (arith, any-published port ports)

-- The port that is chosen is one that some TCP port of the container is published at; where no TCP
-- port is published it is 0.
pub best_port-published :
    (ports : List PortSummary)
    → (any is_published ports ≡ true → any (is_at (best_port ports)) ports ≡ true)
      × (any is_published ports ≡ false → best_port ports ≡ 0)
unfolding best_port
best_port-published ports = elim (Option-cases (find (contains (port_set ports)) preferred)) [
  | inl none_preferred ↦ rw none_preferred (first_published_lem ports)
  | inr (port, found) ↦
      let at =
        sym (port_set_lem ports port)
        ∙ (find-mem (contains (port_set ports)) preferred port found).1 in
      rw found ((λ _. at), (λ none_published. ground (arith, any-published port ports at)))
]

-- While a preferred port is published, the port that is chosen is a preferred one.
pub best_port-preferred :
    (ports : List PortSummary) (port : ℕ)
    → contains preferred port ≡ true
    → any (is_at port) ports ≡ true
    → contains preferred (best_port ports) ≡ true
unfolding best_port
best_port-preferred ports port wanted at =
    elim (Option-cases (find (contains (port_set ports)) preferred)) [
      | inl none_preferred ↦ ground (
        arith,
        find-none (contains (port_set ports)) preferred port none_preferred wanted,
        port_set_lem ports port,
      )
      | inr (chosen, found) ↦
          rw found (find-mem (contains (port_set ports)) preferred chosen found).0
    ]
