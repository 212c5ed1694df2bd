-- ===== src/Util.antt =====
-- internal/util: form values, ports and subdomains.
pub mod Subdomain
mod Tests
use homelab_homepage.Prelude.{String, Bool, ◌||◌, ◌==◌, string_eq, int_eq, ℤ, pos}

unfoldable pub parse_form_bool : String → Bool
parse_form_bool val = val == "on" || (val == "true" || val == "1")

unfoldable pub is_https_port : ℤ → Bool
is_https_port port =
    port == pos 443
    || (port == pos 5001
        || (port == pos 8006
            || (port == pos 8443 || (port == pos 8448 || (port == pos 8920 || port == pos 9443)))))
