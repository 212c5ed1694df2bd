-- ===== src/Discovery/Signatures/Servers.antt =====
-- internal/discovery/network.go: the table of signatures, by its sections up to the download clients.
use homelab_homepage.Prelude.{◌||◌, List, [], ◌∷◌, ◌!=◌, string_eq}
use homelab_homepage.Go.Text.{contains_text}
use homelab_homepage.Discovery.Signatures.Entry.{Signature, simple_sig}

unfoldable pub infrastructure_signatures : List Signature
infrastructure_signatures =
    record {
      name = "Proxmox VE";
      confidence = 99;
      icon = "🖥\u{fe0f}";
      matches = λ h b t.
          contains_text (h "Server") "pve-api-daemon"
          || contains_text b "Proxmox Virtual Environment";
    }
    ∷ simple_sig "Cockpit" 92 "🖥\u{fe0f}" "Cockpit" "cockpit"
    ∷ simple_sig "Webmin" 90 "🖥\u{fe0f}" "Webmin" "webmin"
    ∷ record {
      name = "Synology DSM";
      confidence = 95;
      icon = "💾";
      matches = λ h b t.
          contains_text t "Synology"
          || contains_text b "Synology DiskStation"
          || contains_text b "SYNO.";
    }
    ∷ simple_sig "TrueNAS" 95 "💾" "TrueNAS" "TrueNAS"
    ∷ simple_sig "UniFi" 92 "📡" "UniFi" "UniFi"
    ∷ simple_sig "OpenWrt" 92 "📡" "OpenWrt" "OpenWrt"
    ∷ []

unfoldable pub monitoring_observability_signatures : List Signature
monitoring_observability_signatures =
    record {
      name = "Grafana";
      confidence = 99;
      icon = "📊";
      matches = λ h b t.
          h "X-Grafana-Version" != "" || contains_text t "Grafana" || contains_text b "grafana";
    }
    ∷ simple_sig "Prometheus" 95 "📈" "Prometheus" "prometheus_"
    ∷ record {
      name = "Netdata";
      confidence = 99;
      icon = "📉";
      matches = λ h b t.
          h "X-Netdata-Version" != "" || contains_text b "netdataRoot" || contains_text t "Netdata";
    }
    ∷ simple_sig "Uptime Kuma" 95 "🟢" "Uptime Kuma" "uptimekuma"
    ∷ simple_sig "Scrutiny" 95 "💾" "Scrutiny" "scrutiny"
    ∷ simple_sig "Healthchecks" 90 "✅" "Healthchecks" "healthchecks"
    ∷ simple_sig "Dozzle" 95 "📋" "Dozzle" "dozzle"
    ∷ []

unfoldable pub container_management_signatures : List Signature
container_management_signatures =
    simple_sig "Portainer" 95 "🐳" "Portainer" "Portainer"
    ∷ simple_sig "Yacht" 90 "⛵" "Yacht" "yacht-app"
    ∷ []

unfoldable pub reverse_proxies_signatures : List Signature
reverse_proxies_signatures =
    simple_sig "Nginx Proxy Manager" 95 "🔀" "Nginx Proxy Manager" "Nginx Proxy Manager"
    ∷ simple_sig "Traefik" 92 "🔀" "Traefik" "traefik"
    ∷ []

unfoldable pub home_automation_signatures : List Signature
home_automation_signatures =
    simple_sig "Home Assistant" 95 "🏠" "Home Assistant" "Home Assistant"
    ∷ record {
      name = "Node-RED";
      confidence = 97;
      icon = "🔴";
      matches = λ h b t.
          contains_text (h "X-Powered-By") "node-red"
          || contains_text t "Node-RED"
          || contains_text b "node-red";
    }
    ∷ simple_sig "Frigate" 95 "📹" "Frigate" "Frigate NVR"
    ∷ simple_sig "Zigbee2MQTT" 90 "📡" "Zigbee2MQTT" "zigbee2mqtt"
    ∷ []

unfoldable pub media_servers_signatures : List Signature
media_servers_signatures =
    record {
      name = "Jellyfin";
      confidence = 99;
      icon = "🎬";
      matches = λ h b t.
          h "X-Jellyfin-Version" != "" || contains_text b "Jellyfin" || contains_text t "Jellyfin";
    }
    ∷ record {
      name = "Plex";
      confidence = 99;
      icon = "🎬";
      matches = λ h b t.
          h "X-Plex-Protocol" != ""
          || contains_text b "Plex Media Server"
          || contains_text t "Plex";
    }
    ∷ record {
      name = "Emby";
      confidence = 95;
      icon = "🎬";
      matches = λ h b t.
          h "X-Emby-Server-Id" != "" || contains_text t "Emby" || contains_text b "Emby Server";
    }
    ∷ simple_sig "Navidrome" 95 "🎵" "Navidrome" "Navidrome"
    ∷ simple_sig "Audiobookshelf" 95 "🎧" "Audiobookshelf" "audiobookshelf"
    ∷ []

unfoldable pub media_request_management_signatures : List Signature
media_request_management_signatures =
    simple_sig "Overseerr" 95 "🎭" "Overseerr" "Overseerr"
    ∷ simple_sig "Jellyseerr" 95 "🎭" "Jellyseerr" "Jellyseerr"
    ∷ simple_sig "Ombi" 90 "🎭" "Ombi" "Ombi"
    ∷ simple_sig "Tautulli" 95 "📊" "Tautulli" "tautulli"
    ∷ []

unfoldable pub arr_suite_signatures : List Signature
arr_suite_signatures =
    simple_sig "Sonarr" 95 "📺" "Sonarr" "Sonarr"
    ∷ simple_sig "Radarr" 95 "🎥" "Radarr" "Radarr"
    ∷ simple_sig "Lidarr" 92 "🎵" "Lidarr" "Lidarr"
    ∷ simple_sig "Readarr" 92 "📚" "Readarr" "Readarr"
    ∷ simple_sig "Prowlarr" 95 "🔍" "Prowlarr" "Prowlarr"
    ∷ simple_sig "Bazarr" 95 "💬" "Bazarr" "Bazarr"
    ∷ simple_sig "Jackett" 95 "🔍" "Jackett" "Jackett"
    ∷ []

unfoldable pub download_clients_signatures : List Signature
download_clients_signatures =
    simple_sig "Transmission" 92 "⬇\u{fe0f}" "Transmission" "Transmission Web"
    ∷ simple_sig "qBittorrent" 92 "⬇\u{fe0f}" "qBittorrent" "qBittorrent"
    ∷ simple_sig "Deluge" 90 "⬇\u{fe0f}" "Deluge" "Deluge Web"
    ∷ simple_sig "ruTorrent" 90 "⬇\u{fe0f}" "ruTorrent" "ruTorrent"
    ∷ simple_sig "Flood" 90 "⬇\u{fe0f}" "Flood" "flood-app"
    ∷ simple_sig "SABnzbd" 95 "📥" "SABnzbd" "sabnzbd"
    ∷ simple_sig "NZBGet" 95 "📥" "NZBGet" "nzbget"
    ∷ []
