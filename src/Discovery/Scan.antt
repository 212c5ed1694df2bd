-- ===== src/Discovery/Scan.antt =====
-- internal/discovery/discovery.go: what the two scans do with the results of the probes, which are a
-- list, each result with the id and the time that its entry would get. Writes to disk and of icon
-- files are not part of this.
pub mod Effects
use Prim.Native.Char.{Char, code}
use homelab_homepage.Prelude.{
  ℕ, String, ◌<>◌, Bool, ◌||◌, not, List, [], ◌∷◌, ◌==◌, string_eq, nat_eq, if◌then◌else◌, ℤ,
  contains,
}
use homelab_homepage.Go.Heap.{Ref}
use homelab_homepage.Go.Number.{itoa}
use homelab_homepage.Go.Text.{has_byte}
use homelab_homepage.Util.Subdomain.{trim_right}
use homelab_homepage.Store.Data.{DiscoveredService, source_network}
use homelab_homepage.Store.Services
use homelab_homepage.Store.Services.{get_all_services}
use homelab_homepage.Store.Discovered.{upsert_network_discovered, clear_network_discovered}
use homelab_homepage.Store.Ignored
use homelab_homepage.Store.Ignored.{ignored_key, get_ignored}
use homelab_homepage.Store.State.{Store}

pub record ProbeResult : Type 0 where
  pub ip : String
  pub port : ℤ
  pub url : String
  pub title : String
  pub icon : String
  pub service_name : String
  pub confidence : ℕ
  pub new_id : String
  pub now : ℕ

abbrev is_slash : Char → Bool
is_slash c = code c == b'/'

-- The keys of the map that `assignedTargets` builds.
abbrev pub targets_of : Store → List Ref → List String
targets_of st [] = []
targets_of st (p ∷ ps) =
    let target = (Services.deref st.services p).target in
    target ∷ trim_right is_slash target ∷ targets_of st ps

unfoldable pub assigned_targets : Store → List String
assigned_targets st = targets_of st (get_all_services st.services)

-- net.JoinHostPort
abbrev pub join_host_port : String → String → String
join_host_port host port =
    if has_byte b':' host then "[" <> (host <> ("]:" <> port)) else host <> (":" <> port)

unfoldable pub is_assigned_target : List String → ProbeResult → Bool
is_assigned_target targets r =
    let hp = join_host_port r.ip (itoa r.port) in
    contains targets r.url
    || (contains targets ("http://" <> hp) || contains targets ("https://" <> hp))

abbrev pub entry_of : ProbeResult → DiscoveredService
entry_of r = record {
  id = r.new_id;
  ip = r.ip;
  port = r.port;
  title = r.title;
  icon = r.icon;
  service_name = r.service_name;
  confidence = r.confidence;
  source = source_network;
  container_name = "";
  container_id = "";
  suggested_subdomain = "";
  discovered_at = r.now;
}

abbrev pub upsert_probe_result : ProbeResult → Store → Store
upsert_probe_result r st = record st {
  discovered = (upsert_network_discovered (entry_of r) st.discovered).1;
}

-- The loops over the results; `skip` is what the loop `continue`s on.
unfoldable pub upsert_results : (ProbeResult → Bool) → List ProbeResult → Store → Store
upsert_results skip [] st = st
upsert_results skip (r ∷ rs) st =
    upsert_results skip rs (if skip r then st else upsert_probe_result r st)

-- The keys of `ignoredSet`.
abbrev pub ignored_keys : Store → List Ref → List String
ignored_keys st [] = []
ignored_keys st (p ∷ ps) =
    let ig = Ignored.deref st.ignored p in ignored_key ig.ip ig.port ∷ ignored_keys st ps

unfoldable pub ignored_set : Store → List String
ignored_set st = ignored_keys st (get_ignored st.ignored)

unfoldable pub run_light_scan : List ProbeResult → Store → Store
run_light_scan rs st =
    let targets = assigned_targets st in upsert_results (is_assigned_target targets) rs st

abbrev pub skips : Store → ProbeResult → Bool
skips st r =
    contains (ignored_set st) (ignored_key r.ip r.port)
    || is_assigned_target (assigned_targets st) r

unfoldable pub run_scan : List ProbeResult → Store → Store
run_scan rs st =
    upsert_results (skips st) rs (record st { discovered = clear_network_discovered st.discovered })
