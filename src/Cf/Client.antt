-- ===== src/Cf/Client.antt =====
-- internal/cf/cf.go: the client and its constructor.
use homelab_homepage.Prelude.{
  String, Bool, true, false, ◌&&◌, ◌||◌, not, ◌==◌, ◌!=◌, string_eq, if◌then◌else◌,
}

pub record Client : Type 0 where
  pub zone_id : String
  pub account_id : String
  pub tunnel_id : String
  pub noop : Bool

abbrev pub new : String → String → String → String → Client
new token zone_id tunnel_id account_id =
    if token == "" || zone_id == ""
    then record { zone_id = ""; account_id = ""; tunnel_id = ""; noop = true }
    else record { zone_id = zone_id; account_id = account_id; tunnel_id = tunnel_id; noop = false }

abbrev pub set_tunnel_id : String → Client → Client
set_tunnel_id id c = record c { tunnel_id = id }

unfoldable pub tunnel_enabled : Client → Bool
tunnel_enabled c = not c.noop && (c.tunnel_id != "" && c.account_id != "")

unfoldable pub tunnel_available : Client → Bool
tunnel_available c = not c.noop && c.account_id != ""
