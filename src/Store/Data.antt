-- ===== src/Store/Data.antt =====
-- The entities of internal/store/store.go and its constants. A `time.Time` is a number of
-- nanoseconds, an `int` has no bound, and a `Confidence` is in hundredths.
use homelab_homepage.Prelude.{ℕ, String, Bool, false, ℤ, pos}

abbrev pub source_docker : String
source_docker = "docker"

abbrev pub source_network : String
source_network = "network"

abbrev pub source_manual : String
source_manual = "manual"

abbrev pub icon_file : String
icon_file = "file"

pub record Service : Type 0 where
  pub id : String
  pub name : String
  pub subdomain : String
  pub target : String
  pub icon : String
  pub category : String
  pub order : ℤ
  pub source : String
  pub container_id : String
  pub container_name : String
  pub dns_record_id : String
  pub tunnel_route_id : String
  pub skip_health : Bool
  pub direct_only : Bool
  pub created_at : ℕ

pub record Bookmark : Type 0 where
  pub id : String
  pub name : String
  pub url : String
  pub icon : String
  pub category : String
  pub order : ℤ

pub record IgnoredService : Type 0 where
  pub id : String
  pub ip : String
  pub port : ℤ
  pub title : String
  pub ignored_at : ℕ

pub record DiscoveredService : Type 0 where
  pub id : String
  pub ip : String
  pub port : ℤ
  pub title : String
  pub icon : String
  pub service_name : String
  pub confidence : ℕ
  pub source : String
  pub container_name : String
  pub container_id : String
  pub suggested_subdomain : String
  pub discovered_at : ℕ

pub record TunnelInfo : Type 0 where
  pub tunnel_id : String
  pub token : String
  pub created_at : ℕ

-- The zero values of Go.
abbrev pub zero_service : Service
zero_service = record {
  id = "";
  name = "";
  subdomain = "";
  target = "";
  icon = "";
  category = "";
  order = pos 0;
  source = "";
  container_id = "";
  container_name = "";
  dns_record_id = "";
  tunnel_route_id = "";
  skip_health = false;
  direct_only = false;
  created_at = 0;
}

abbrev pub zero_bookmark : Bookmark
zero_bookmark = record { id = ""; name = ""; url = ""; icon = ""; category = ""; order = pos 0 }

abbrev pub zero_ignored : IgnoredService
zero_ignored = record { id = ""; ip = ""; port = pos 0; title = ""; ignored_at = 0 }

abbrev pub zero_discovered : DiscoveredService
zero_discovered = record {
  id = "";
  ip = "";
  port = pos 0;
  title = "";
  icon = "";
  service_name = "";
  confidence = 0;
  source = "";
  container_name = "";
  container_id = "";
  suggested_subdomain = "";
  discovered_at = 0;
}
