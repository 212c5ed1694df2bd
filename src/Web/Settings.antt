-- ===== src/Web/Settings.antt =====
-- internal/web/handle_settings.go and handle_discovery.go: the handlers of DDNS domains and of the
-- subnets that are scanned, with the fields of the store that they use. `FormValue` is a function; a
-- form whose parsing fails is `none`.
pub mod Kept
use Prim.Native.Char.{Char}
use homelab_homepage.Prelude.{
  String, Bool, true, false, ◌||◌, not, Option, none, some, List, [], ◌∷◌, ◌==◌, ◌!=◌, string_eq,
  if◌then◌else◌,
}
use homelab_homepage.Util.Subdomain.{trim, is_space, map_chars, to_lower_char}
use homelab_homepage.Store.Settings.{add_unique, remove_string}
use homelab_homepage.Cf.Act.{Act, Result, ok, err, attempt}
use homelab_homepage.Cf.Api.{Api}
use homelab_homepage.Cf.Client.{Client}
use homelab_homepage.Cf.Dns.{create_record, find_record, delete_record}
use homelab_homepage.Web.Server.{Status, ok_status, bad_request}

-- Fields of the data of the store.
pub record Fields : Type 0 where
  pub ddns_domains : List String
  pub scan_subnets : List String
  pub public_ip : String

abbrev pub get_ddns_domains : Fields → List String
get_ddns_domains d = d.ddns_domains

unfoldable pub add_ddns_domain : String → Fields → Fields
add_ddns_domain domain d = record d { ddns_domains = add_unique domain d.ddns_domains }

unfoldable pub remove_ddns_domain : String → Fields → Fields
remove_ddns_domain domain d = record d { ddns_domains = remove_string domain d.ddns_domains }

abbrev pub get_scan_subnets : Fields → List String
get_scan_subnets d = d.scan_subnets

unfoldable pub add_scan_subnet : String → Fields → Fields
add_scan_subnet cidr d = record d { scan_subnets = add_unique cidr d.scan_subnets }

unfoldable pub remove_scan_subnet : String → Fields → Fields
remove_scan_subnet cidr d = record d { scan_subnets = remove_string cidr d.scan_subnets }

abbrev pub set_public_ip : String → Fields → Fields
set_public_ip ip d = record d { public_ip = ip }

abbrev pub get_public_ip : Fields → String
get_public_ip d = d.public_ip

-- `valid_cidr` is whether net.ParseCIDR gives no error.
unfoldable pub handle_add_scan_subnet :
    (String → Bool) → Option (String → String) → Fields → Status × Fields
handle_add_scan_subnet valid_cidr none d = (bad_request, d)
handle_add_scan_subnet valid_cidr (some form_value) d =
    let cidr = form_value "cidr" in
    if cidr == "" || not (valid_cidr cidr)
    then (bad_request, d)
    else (ok_status, add_scan_subnet cidr d)

unfoldable pub handle_remove_scan_subnet : String → Fields → Status × Fields
handle_remove_scan_subnet cidr d =
    if cidr == "" then (bad_request, d) else (ok_status, remove_scan_subnet cidr d)

-- strings.ToLower(strings.TrimSpace(s)); `lower` is unicode.ToLower beyond ASCII.
unfoldable pub normal_domain : (Char → Char) → String → String
normal_domain lower s = map_chars (to_lower_char lower) (trim is_space s)

module _ (api : Api) (c : Client) where
  abbrev created : String → String → api.World → api.World
  created domain ip w = if ip != "" then (attempt (create_record api c domain ip) w).1 else w

  unfoldable pub handle_add_ddns :
      (Char → Char) → Option (String → String) → Fields → api.World → Status × Fields × api.World
  handle_add_ddns lower none d w = (bad_request, d, w)
  handle_add_ddns lower (some form_value) d w =
      let domain = normal_domain lower (form_value "domain") in
      if domain == ""
      then (bad_request, d, w)
      else let d' = add_ddns_domain domain d in (ok_status, d', created domain d'.public_ip w)

  abbrev deleted : Result (String × String) → api.World → api.World
  deleted (err e) w = w
  deleted (ok (id, ip)) w = if id != "" then (attempt (delete_record api c id) w).1 else w

  unfoldable pub handle_remove_ddns : String → Fields → api.World → Status × Fields × api.World
  handle_remove_ddns domain d w =
      let (r, w') = find_record api c domain w in
      (ok_status, remove_ddns_domain domain d, deleted r w')
