-- ===== src/Discovery/Signatures.antt =====
-- internal/discovery/network.go: the whole table of signatures, and the search in it.
pub mod Entry
pub mod Servers
pub mod Apps
pub mod First
use homelab_homepage.Prelude.{ℕ, String, List, [], ◌∷◌, ◌++◌, if◌then◌else◌}
use homelab_homepage.Discovery.Signatures.Entry.{Signature, simple_sig}
use homelab_homepage.Discovery.Signatures.Servers.{
  infrastructure_signatures, monitoring_observability_signatures, container_management_signatures,
  reverse_proxies_signatures, home_automation_signatures, media_servers_signatures,
  media_request_management_signatures, arr_suite_signatures, download_clients_signatures,
}
use homelab_homepage.Discovery.Signatures.Apps.{
  git_ci_signatures, auth_identity_signatures, networking_vpn_signatures, notifications_signatures,
  photos_files_signatures, reading_documents_signatures, homelab_dashboards_signatures,
  food_life_signatures, bookmarks_links_signatures, automation_workflow_signatures,
  remote_access_signatures, communication_social_signatures, other_signatures,
}

unfoldable pub signatures : List Signature
unfolding infrastructure_signatures monitoring_observability_signatures
    container_management_signatures reverse_proxies_signatures home_automation_signatures
    media_servers_signatures media_request_management_signatures arr_suite_signatures
    download_clients_signatures git_ci_signatures auth_identity_signatures networking_vpn_signatures
    notifications_signatures photos_files_signatures reading_documents_signatures
    homelab_dashboards_signatures food_life_signatures bookmarks_links_signatures
    automation_workflow_signatures remote_access_signatures communication_social_signatures
    other_signatures
signatures =
    infrastructure_signatures ++ monitoring_observability_signatures
    ++ container_management_signatures ++ reverse_proxies_signatures ++ home_automation_signatures
    ++ media_servers_signatures ++ media_request_management_signatures ++ arr_suite_signatures
    ++ download_clients_signatures ++ git_ci_signatures ++ auth_identity_signatures
    ++ networking_vpn_signatures ++ notifications_signatures ++ photos_files_signatures
    ++ reading_documents_signatures ++ homelab_dashboards_signatures ++ food_life_signatures
    ++ bookmarks_links_signatures ++ automation_workflow_signatures ++ remote_access_signatures
    ++ communication_social_signatures ++ other_signatures

-- The loop of `fingerprint`. A signature that matches gives its name, its confidence and its icon.
unfoldable pub first_match :
    List Signature → (String → String) → String → String → String × ℕ × String
first_match [] h body title = ("", 0, "")
first_match (sig ∷ rest) h body title =
    let later = first_match rest h body title in
    if sig.matches h body title then (sig.name, sig.confidence, sig.icon) else later

unfoldable pub fingerprint : (String → String) → String → String → String × ℕ × String
unfolding signatures first_match
fingerprint h body title = first_match signatures h body title
