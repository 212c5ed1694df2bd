-- ===== src/Discovery/Signatures/Apps.antt =====
-- internal/discovery/network.go: the table of signatures, by its sections from Git and CI on.
use homelab_homepage.Prelude.{◌||◌, List, [], ◌∷◌, ◌!=◌, string_eq}
use homelab_homepage.Go.Text.{contains_text}
use homelab_homepage.Discovery.Signatures.Entry.{Signature, simple_sig, is_n8n}

unfoldable pub git_ci_signatures : List Signature
git_ci_signatures =
    record {
      name = "Gitea";
      confidence = 99;
      icon = "🦊";
      matches =
          λ h b t. h "X-Gitea-Version" != "" || contains_text t "Gitea" || contains_text b "Gitea";
    }
    ∷ record {
      name = "Forgejo";
      confidence = 99;
      icon = "🦊";
      matches = λ h b t.
          h "X-Forgejo-Version" != "" || contains_text t "Forgejo" || contains_text b "Forgejo";
    }
    ∷ simple_sig "Woodpecker CI" 90 "🚀" "Woodpecker" "woodpecker-ci"
    ∷ simple_sig "Drone CI" 90 "🚀" "Drone" "drone.io"
    ∷ simple_sig "Harbor" 92 "🗃\u{fe0f}" "Harbor" "harbor-app"
    ∷ []

unfoldable pub auth_identity_signatures : List Signature
auth_identity_signatures =
    record {
      name = "Vaultwarden";
      confidence = 95;
      icon = "🔐";
      matches = λ h b t.
          contains_text b "Vaultwarden"
          || contains_text t "Vaultwarden"
          || contains_text b "bitwarden";
    }
    ∷ simple_sig "Authelia" 95 "🔐" "Authelia" "Authelia"
    ∷ record {
      name = "Authentik";
      confidence = 97;
      icon = "🔐";
      matches = λ h b t.
          contains_text (h "X-Powered-By") "authentik"
          || contains_text b "ak-flow"
          || contains_text t "authentik";
    }
    ∷ simple_sig "Keycloak" 95 "🔑" "Keycloak" "Keycloak"
    ∷ record {
      name = "HashiCorp Vault";
      confidence = 97;
      icon = "🔒";
      matches = λ h b t.
          h "X-Vault-Request" != "" || contains_text b "hashicorp-vault" || contains_text t "Vault";
    }
    ∷ []

unfoldable pub networking_vpn_signatures : List Signature
networking_vpn_signatures =
    simple_sig "Pi-hole" 95 "🕳\u{fe0f}" "Pi-hole" "Pi-hole"
    ∷ simple_sig "AdGuard Home" 95 "🛡\u{fe0f}" "AdGuard" "AdGuard Home"
    ∷ simple_sig "Technitium DNS" 95 "🌐" "Technitium" "TechnitiumDNS"
    ∷ simple_sig "WireGuard Easy" 95 "🔒" "WG Easy" "wg-easy"
    ∷ simple_sig "Headscale" 90 "🔒" "Headscale" "headscale"
    ∷ []

unfoldable pub notifications_signatures : List Signature
notifications_signatures =
    simple_sig "Gotify" 95 "🔔" "Gotify" "gotify" ∷ simple_sig "ntfy" 95 "🔔" "ntfy" "ntfy.sh" ∷ []

unfoldable pub photos_files_signatures : List Signature
photos_files_signatures =
    simple_sig "Immich" 95 "📷" "Immich" "Immich"
    ∷ simple_sig "PhotoPrism" 95 "📸" "PhotoPrism" "PhotoPrism"
    ∷ record {
      name = "Nextcloud";
      confidence = 97;
      icon = "☁\u{fe0f}";
      matches = λ h b t.
          h "X-Nextcloud-Request-Id" != ""
          || contains_text b "Nextcloud"
          || contains_text t "Nextcloud";
    }
    ∷ record {
      name = "Syncthing";
      confidence = 97;
      icon = "🔄";
      matches = λ h b t.
          h "X-Syncthing-Id" != "" || contains_text t "Syncthing" || contains_text b "syncthing";
    }
    ∷ simple_sig "MinIO" 95 "🗄\u{fe0f}" "MinIO" "minio"
    ∷ simple_sig "Seafile" 90 "🗄\u{fe0f}" "Seafile" "seafile"
    ∷ []

unfoldable pub reading_documents_signatures : List Signature
reading_documents_signatures =
    simple_sig "Calibre-Web" 95 "📚" "Calibre-Web" "calibre-web"
    ∷ simple_sig "Komga" 95 "📚" "Komga" "Komga"
    ∷ simple_sig "Kavita" 95 "📚" "Kavita" "kavita"
    ∷ simple_sig "Paperless-ngx" 95 "📄" "Paperless" "paperless"
    ∷ simple_sig "Stirling-PDF" 95 "📄" "Stirling" "stirling-pdf"
    ∷ simple_sig "BookStack" 90 "📖" "BookStack" "BookStack"
    ∷ simple_sig "Wallabag" 90 "📰" "Wallabag" "wallabag"
    ∷ simple_sig "FreshRSS" 90 "📰" "FreshRSS" "FreshRSS"
    ∷ simple_sig "Miniflux" 90 "📰" "Miniflux" "miniflux"
    ∷ []

unfoldable pub homelab_dashboards_signatures : List Signature
homelab_dashboards_signatures =
    simple_sig "Homarr" 95 "🏠" "Homarr" "Homarr"
    ∷ simple_sig "Homer" 90 "🏠" "Homer" "homer-app"
    ∷ simple_sig "Flame" 90 "🔥" "Flame" "flame-app"
    ∷ simple_sig "Dashy" 90 "📊" "Dashy" "dashy"
    ∷ simple_sig "Heimdall" 90 "🛡\u{fe0f}" "Heimdall" "heimdall"
    ∷ simple_sig "Organizr" 90 "📁" "Organizr" "organizr"
    ∷ []

unfoldable pub food_life_signatures : List Signature
food_life_signatures =
    simple_sig "Mealie" 95 "🍽\u{fe0f}" "Mealie" "mealie"
    ∷ simple_sig "Grocy" 95 "🛒" "grocy" "grocy"
    ∷ simple_sig "Tandoor" 90 "🍽\u{fe0f}" "Tandoor" "tandoor"
    ∷ []

unfoldable pub bookmarks_links_signatures : List Signature
bookmarks_links_signatures =
    simple_sig "Linkding" 95 "🔗" "linkding" "linkding"
    ∷ simple_sig "Shlink" 90 "🔗" "Shlink" "shlink"
    ∷ []

unfoldable pub automation_workflow_signatures : List Signature
automation_workflow_signatures =
    record {
      name = "n8n";
      confidence = 95;
      icon = "⚙\u{fe0f}";
      matches = λ h b t. is_n8n t || contains_text b "\"n8n\"";
    }
    ∷ simple_sig "Changedetection.io" 95 "👁\u{fe0f}" "changedetection" "changedetection"
    ∷ []

unfoldable pub remote_access_signatures : List Signature
remote_access_signatures = simple_sig "Guacamole" 95 "🖥\u{fe0f}" "Guacamole" "guacamole" ∷ []

unfoldable pub communication_social_signatures : List Signature
communication_social_signatures =
    record {
      name = "Matrix Synapse";
      confidence = 95;
      icon = "💬";
      matches = λ h b t.
          contains_text (h "Server") "Synapse"
          || contains_text b "matrix-synapse"
          || contains_text t "Matrix";
    }
    ∷ []

unfoldable pub other_signatures : List Signature
other_signatures =
    simple_sig "Verdaccio" 90 "📦" "Verdaccio" "verdaccio"
    ∷ simple_sig "IT Tools" 90 "🔧" "IT Tools" "it-tools"
    ∷ []
