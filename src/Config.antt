-- ===== src/Config.antt =====
-- internal/config/config.go: the configuration of the environment variables. A duration is in
-- nanoseconds; time.ParseDuration is a parameter, with `none` for an error.
use homelab_homepage.Prelude.{
  ℕ, ◌*◌, ◌-◌, ◌%◌, ◌^◌, ltb, String, Bool, true, false, Option, none, some, ◌!=◌, string_eq,
  if◌then◌else◌, ℤ, pos, negsuc, ◌+◌, ◌≡◌, ◌≢◌, arith, ◌↔◌, ◌⊎◌,
}
use homelab_homepage.Go.Number.{atoi}

pub record Config : Type 0 where
  pub domain : String
  pub cf_api_token : String
  pub cf_zone_id : String
  pub cf_tunnel_id : String
  pub cf_account_id : String
  pub server_ip : String
  pub data_dir : String
  pub scan_interval : ℤ
  pub scan_timeout : ℤ

-- `getenv` is os.Getenv, which gives the empty text for a variable that is not set.
abbrev pub get_env : (String → String) → String → String → String
get_env getenv key def = if getenv key != "" then getenv key else def

-- The 64 bits `m` as a signed number.
abbrev signed : ℕ → ℤ
signed m = if ltb m (2 ^ 63) then pos m else negsuc (2 ^ 64 - 1 - m)

-- time.Duration(n) * time.Millisecond, which wraps around at 64 bits.
abbrev millis : ℤ → ℤ
millis (pos n) = signed (n * 1000000 % 2 ^ 64)
millis (negsuc n) = signed ((2 ^ 64 - (n + 1) * 1000000 % 2 ^ 64) % 2 ^ 64)

abbrev interval_of : (String → Option ℤ) → String → Option ℤ
interval_of parse s = if s != "" then parse s else some (pos 86400000000000)

abbrev accepted : ℤ × Bool → Option ℤ
accepted (v, true) = some (millis v)
accepted (v, false) = none

abbrev timeout_of : String → Option ℤ
timeout_of s = if s != "" then accepted (atoi s) else some (millis (pos 200))

abbrev config_of : (String → String) → Option ℤ → Option ℤ → Option Config
config_of getenv (some interval) (some timeout) = some (record {
  domain = get_env getenv "DOMAIN" "";
  cf_api_token = getenv "CF_API_TOKEN";
  cf_zone_id = getenv "CF_ZONE_ID";
  cf_tunnel_id = getenv "CF_TUNNEL_ID";
  cf_account_id = getenv "CF_ACCOUNT_ID";
  server_ip = getenv "SERVER_IP";
  data_dir = get_env getenv "DATA_DIR" "/data";
  scan_interval = interval;
  scan_timeout = timeout;
})
config_of getenv _ _ = none

-- `Load`; `none` is an error.
unfoldable pub load : (String → Option ℤ) → (String → String) → Option Config
load parse_duration getenv =
    config_of getenv (interval_of parse_duration (getenv "SCAN_INTERVAL"))
      (timeout_of (getenv "SCAN_TIMEOUT_MS"))

pub load-none :
    (parse_duration : String → Option ℤ) (getenv : String → String)
    → (load parse_duration getenv ≡ none) ↔ (
        ((getenv "SCAN_INTERVAL" ≢ "") × (parse_duration (getenv "SCAN_INTERVAL") ≡ none))
        ⊎ ((getenv "SCAN_TIMEOUT_MS" ≢ "") × ((atoi (getenv "SCAN_TIMEOUT_MS")).1 ≡ false)))
unfolding load
load-none parse_duration getenv = ground arith
