-- ===== src/Store/Tests/Found.antt =====
-- Discovered, ignored and bookmarked entries, the lists of texts, and concurrent saves.
use homelab_homepage.Prelude.{
  ℕ, ◌≡◌, ◌≢◌, refl, some, string_dec, string_eq, pos, ℕ_discrete, arith, int_eq,
}
use homelab_homepage.Go.Map.{lookup, insert}
use homelab_homepage.Store.Data.{DiscoveredService, source_network, zero_discovered}
use homelab_homepage.Store.Discovered
use homelab_homepage.Store.Discovered.{
  Discovered, add_discovered, is_duplicate, is_known, upsert_network_discovered,
  clear_network_discovered, remove_discovered_by_container_id,
}
use homelab_homepage.Store.Discovered.Invariant
use homelab_homepage.Store.Discovered.Invariant.{add_discovered-IsIndexed}
use homelab_homepage.Store.Discovered.View.{view}
use homelab_homepage.Store.Save.{
  absent, whole, Saving, Reach, quiet, outside, IsWhole, disk-IsWhole,
}
use homelab_homepage.Store.Save.Order.{stale_save}
use homelab_homepage.Store.Ignored
use homelab_homepage.Store.Ignored.{ignore_discovered}
use homelab_homepage.Store.Ignored.Moves
use homelab_homepage.Store.Ignored.Moves.{IsMoved, ignore_discovered-IsMoved}

empty-IsIndexed : Discovered.Invariant.IsIndexed Discovered.empty
unfolding lookup
empty-IsIndexed = record {
  listed = λ p h. cc;
  by_id = λ i p h. cc;
  held = λ p h k. cc;
  by_container = λ c p h. cc;
}

abbrev printer : DiscoveredService
printer = record zero_discovered {
  id = "d1";
  ip = "10.0.0.9";
  port = pos 80;
  title = "Printer";
  source = source_network;
}

abbrev found : Discovered
found = add_discovered printer Discovered.empty

found-IsIndexed : Discovered.Invariant.IsIndexed found
unfolding lookup
found-IsIndexed = add_discovered-IsIndexed printer Discovered.empty empty-IsIndexed refl

ignored-IsIndexed : Ignored.Moves.IsIndexed Ignored.empty
unfolding lookup
ignored-IsIndexed = record { listed = λ p h. cc; by_id = λ i p h. cc }

ignore_discovered-IsMoved_example :
    (d' : Discovered) × (t' : Ignored.Ignored) × (ignore_discovered 7 "d1" found Ignored.empty
      ≡ some (d', t'))
    × IsMoved 7 "d1" printer found d' Ignored.empty t'
unfolding lookup insert add_discovered string_dec ℕ_discrete view
ignore_discovered-IsMoved_example =
    ignore_discovered-IsMoved 7 "d1" found Ignored.empty found-IsIndexed ignored-IsIndexed printer
      refl refl

-- Data that is valid when it is not 0.
abbrev NotZero : ℕ → Type 0
NotZero n = n ≢ 0

one-NotZero : NotZero 1
one-NotZero e = omega (arith, e)

two-NotZero : NotZero 2
two-NotZero e = omega (arith, e)

-- The run of two saves that leaves the older data.
disk-IsWhole_example : IsWhole NotZero absent (stale_save NotZero 2 1 absent one-NotZero).0.disk
disk-IsWhole_example =
    disk-IsWhole NotZero 2 absent (stale_save NotZero 2 1 absent one-NotZero).0 two-NotZero
      (stale_save NotZero 2 1 absent one-NotZero).1

stale_save_example :
    (t : Saving ℕ) × Reach NotZero (quiet 0 absent) t
    × (t.current ≡ 1)
    × (t.disk ≡ whole 0)
    × ((i : ℕ) → t.stage i ≡ outside)
stale_save_example = stale_save NotZero 0 1 absent one-NotZero
