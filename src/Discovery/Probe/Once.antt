-- ===== src/Discovery/Probe/Once.antt =====
-- internal/discovery/network.go: `probeOnce` among the paths.
use homelab_homepage.Prelude.{
  ℕ, ◌≤◌, true, false, ◌||◌, List, [], ◌∷◌, ◌≡◌, refl, arith, ◌==◌, string_eq, string_dec, pos,
  ℤ_discrete, contains, inl, inr, Bool-cases, map, Eq, ◌∙◌, ap, sym,
}
use homelab_homepage.Go.Number.{max_int}
use homelab_homepage.Store.Ignored.{ignored_key}
use homelab_homepage.Store.Ignored.Key.{ignored_key-injective}
use homelab_homepage.Discovery.Probe.{
  OpenPort, Net, Probing, no_probing, port_key, probe_once, probe_all,
}

-- The port is not negative, and an `int`.
abbrev pub IsPort : OpenPort → Type 0
IsPort op = (n : ℕ) × (op.port ≡ pos n) × (n ≤ max_int)

abbrev pub ArePorts : List OpenPort → Type 0
ArePorts [] = Unit {0}
ArePorts (op ∷ ops) = IsPort op × ArePorts ops

unfoldable pub OpenPort_dec : Discrete OpenPort
OpenPort_dec = hlevel (string_dec, ℤ_discrete)

instance abbrev pub open_port_eq : Eq OpenPort
open_port_eq = record { dec = OpenPort_dec }

abbrev pub AreDistinct : List OpenPort → Type 0
AreDistinct [] = Unit {0}
AreDistinct (op ∷ ops) = (contains ops op ≡ false) × AreDistinct ops

-- One key, one address and port.
port_key-injective : (a b : OpenPort) → IsPort a → IsPort b → port_key a ≡ port_key b → a ≡ b
unfolding port_key ignored_key
port_key-injective a b (n, en, hn) (m, em, hm) e =
    let keys : ignored_key a.ip (pos n) ≡ ignored_key b.ip (pos m) =
      ap (ignored_key a.ip) (sym en) ∙ e ∙ ap (ignored_key b.ip) em in
    let (ip, port) = ignored_key-injective a.ip b.ip n m hn hm keys in
    ground (arith, ip, port, en, em)

port_key-== : (a b : OpenPort) → IsPort a → IsPort b → (port_key a == port_key b) ≡ (a == b)
port_key-== a b ha hb = ground (arith, port_key-injective a b ha hb, λ (e : a ≡ b). ap port_key e)

contains-map :
    (ops : List OpenPort) (op : OpenPort)
    → ArePorts ops
    → IsPort op
    → contains (map port_key ops) (port_key op) ≡ contains ops op
contains-map [] op hs h = refl
contains-map (o ∷ ops) op (ho, hs) h =
    ground (arith, contains-map ops op hs h, port_key-== o op ho h)

-- What holds between two calls.
abbrev IsSound : Probing → Type 0
IsSound s = (s.probed_ports ≡ map port_key s.probed) × AreDistinct s.probed × ArePorts s.probed

probe_once_lem :
    (net : Net) (op : OpenPort) (s : Probing)
    → IsPort op
    → IsSound s
    → IsSound (probe_once net op s)
      × ((o : OpenPort)
          → contains (probe_once net op s).probed o ≡ (op == o || contains s.probed o))
unfolding probe_once
probe_once_lem net op s h (keys, distinct, ports) =
    elim (Bool-cases (contains s.probed_ports (port_key op))) [
      | inl e ↦
          let there : contains s.probed op ≡ true =
            ground (arith, e, keys, contains-map s.probed op ports h) in
          rw e ((keys, distinct, ports), λ o. ground (arith, there))
      | inr e ↦
          let absent : contains s.probed op ≡ false =
            ground (arith, e, keys, contains-map s.probed op ports h) in
          rw e ((ap (λ l. port_key op ∷ l) keys, (absent, distinct), (h, ports)), λ o. refl)
    ]

probe_all_lem :
    (net : Net) (ops : List OpenPort) (s : Probing)
    → ArePorts ops
    → IsSound s
    → IsSound (probe_all net ops s)
      × ((o : OpenPort)
          → contains (probe_all net ops s).probed o ≡ (contains ops o || contains s.probed o))
unfolding probe_all
probe_all_lem net [] s hs sound = (sound, λ o. refl)
probe_all_lem net (op ∷ ops) s (h, hs) sound =
    let (sound1, has1) = probe_once_lem net op s h sound in
    let (sound2, has2) = probe_all_lem net ops (probe_once net op s) hs sound1 in
    (sound2, λ o. ground (arith, has1 o, has2 o))

-- Of any sequence of addresses with ports, all of them valid, in which paths and workers reach the
-- probe, each address with its port is probed exactly once, and no other is.
pub probe_all-probed :
    (net : Net) (ops : List OpenPort)
    → ArePorts ops
    → AreDistinct (probe_all net ops no_probing).probed
      × ((o : OpenPort) → contains (probe_all net ops no_probing).probed o ≡ contains ops o)
probe_all-probed net ops hs =
    let ((keys, distinct, ports), has) = probe_all_lem net ops no_probing hs (refl, tt, tt) in
    (distinct, λ o. ground (arith, has o))
