-- ===== src/Discovery/Scan/Effects.antt =====
-- internal/discovery/discovery.go: what a scan leaves among the discovered entries.
use homelab_homepage.Prelude.{
  String, ◌≡◌, refl, Bool, true, false, not, none, some, List, [], ◌∷◌, arith, string_eq, int_eq,
  nat_eq, if◌then◌else◌, Option-cases, Bool-cases, inl, inr, contains, find, find-mem, ℤ,
}
use homelab_homepage.Go.Map.{lookup}
use homelab_homepage.Store.Data.{DiscoveredService, source_network}
use homelab_homepage.Store.Discovered.{is_known, clear_network_discovered}
use homelab_homepage.Store.Discovered.Invariant.{IsIndexed, upsert_network_discovered-IsIndexed}
use homelab_homepage.Store.Discovered.Clear.{clear_network_discovered-IsIndexed}
use homelab_homepage.Store.Discovered.View.{
  view, view-upsert_network_discovered, view-clear_network_discovered,
}
use homelab_homepage.Store.Ignored.{ignored_key}
use homelab_homepage.Store.State.{Store}
use homelab_homepage.Discovery.Scan.{
  ProbeResult, entry_of, upsert_probe_result, upsert_results, skips, run_scan, ignored_set,
  run_light_scan, is_assigned_target, assigned_targets,
}

-- The ids that the results draw are not taken when their turn comes.
abbrev pub Fresh : (ProbeResult → Bool) → List ProbeResult → Store → Type 0
Fresh skip [] st = Unit
Fresh skip (r ∷ rs) st =
    (lookup r.new_id st.discovered.discovered_idx ≡ none)
    × Fresh skip rs (if skip r then st else upsert_probe_result r st)

-- No network entry has a suppressed address.
abbrev pub Shows : (String → ℤ → Bool) → Store → Type 0
Shows allowed st =
    (i : String) (d : DiscoveredService)
    → view st.discovered i ≡ some d
    → d.source ≡ source_network
    → allowed d.ip d.port ≡ true

module _ (allowed : String → ℤ → Bool) where
  upsert_probe_result-Shows :
      (r : ProbeResult) (st : Store)
      → IsIndexed st.discovered
      → Shows allowed st
      → allowed r.ip r.port ≡ true
      → Shows allowed (upsert_probe_result r st)
  upsert_probe_result-Shows r st v shows ok i d e net =
      let t = st.discovered in
      let views = (view-upsert_network_discovered t v (entry_of r)).1 i in
      elim (Option-cases (find (is_known t (entry_of r)) t.discovered)) [
        | inl new ↦ ground (arith, views, new, shows i d, ok, e, net)
        | inr (p, known) ↦ ground (
          arith,
          views,
          known,
          shows i d,
          ok,
          e,
          net,
          find-mem (is_known t (entry_of r)) t.discovered p,
        )
      ]

  one_result :
      (skip : ProbeResult → Bool) (r : ProbeResult) (st : Store)
      → ((r : ProbeResult) → skip r ≡ false → allowed r.ip r.port ≡ true)
      → IsIndexed st.discovered
      → lookup r.new_id st.discovered.discovered_idx ≡ none
      → Shows allowed st
      → Shows allowed (if skip r then st else upsert_probe_result r st)
        × IsIndexed (if skip r then st else upsert_probe_result r st).discovered
  one_result skip r st ok v new shows = elim (Bool-cases (skip r)) [
    | inl skipped ↦ rw skipped (shows, v)
    | inr taken ↦ rw taken (
      upsert_probe_result-Shows r st v shows (ok r taken),
      upsert_network_discovered-IsIndexed (entry_of r) st.discovered v new refl,
    )
  ]

  upsert_results-Shows :
      (skip : ProbeResult → Bool) (rs : List ProbeResult) (st : Store)
      → ((r : ProbeResult) → skip r ≡ false → allowed r.ip r.port ≡ true)
      → IsIndexed st.discovered
      → Fresh skip rs st
      → Shows allowed st
      → Shows allowed (upsert_results skip rs st) × IsIndexed (upsert_results skip rs st).discovered
  unfolding upsert_results
  upsert_results-Shows skip [] st ok v fresh shows = (shows, v)
  upsert_results-Shows skip (r ∷ rs) st ok v (new, fresh) shows =
      let (shows', v') = one_result skip r st ok v new shows in
      upsert_results-Shows skip rs (if skip r then st else upsert_probe_result r st) ok v' fresh
        shows'

-- The addresses that are not ignored.
abbrev pub is_allowed : Store → String → ℤ → Bool
is_allowed st ip port = not (contains (ignored_set st) (ignored_key ip port))

-- With consistent indexes of the discovered entries, and ids that are not taken when they are
-- drawn, a full scan leaves no network entry with an address that was ignored when it began,
-- whatever the probes give, and the indexes stay consistent.
pub run_scan_ignored :
    (rs : List ProbeResult) (st : Store)
    → IsIndexed st.discovered
    → Fresh (skips st) rs (record st { discovered = clear_network_discovered st.discovered })
    → Shows (is_allowed st) (run_scan rs st) × IsIndexed (run_scan rs st).discovered
unfolding run_scan
run_scan_ignored rs st v fresh =
    upsert_results-Shows (is_allowed st) (skips st) rs _ (λ r taken. ground arith)
      (clear_network_discovered-IsIndexed st.discovered v) fresh
      (λ i d e net. ground (arith, e, net, (view-clear_network_discovered st.discovered v).1 i))

-- With consistent indexes of the discovered entries, a result of a light scan whose target is not
-- assigned and whose address has no network entry is shown under its new id, even if that address
-- is ignored.
pub run_light_scan_shown :
    (r : ProbeResult) (st : Store)
    → IsIndexed st.discovered
    → is_assigned_target (assigned_targets st) r ≡ false
    → find (is_known st.discovered (entry_of r)) st.discovered.discovered ≡ none
    → view (run_light_scan (r ∷ []) st).discovered r.new_id ≡ some (entry_of r)
unfolding run_light_scan upsert_results
run_light_scan_shown r st v unassigned unknown = ground (
  arith,
  unassigned,
  unknown,
  (view-upsert_network_discovered st.discovered v (entry_of r)).0,
  (view-upsert_network_discovered st.discovered v (entry_of r)).1 r.new_id,
)
