-- ===== src/Web/Settings/Kept.antt =====
-- internal/web/handle_settings.go and handle_discovery.go: the lists after the handlers.
use homelab_homepage.Prelude.{
  String, Bool, ◌||◌, ◌&&◌, not, some, ◌==◌, string_eq, if◌then◌else◌, ◌≡◌, refl, arith, contains,
  Bool-cases, inl, inr, ap, ◌∙◌,
}
use homelab_homepage.Store.Settings.{Unique, add_unique-set, remove_string-set}
use homelab_homepage.Web.Server.{ok_status, bad_request}
use homelab_homepage.Web.Settings.{
  Fields, add_scan_subnet, remove_scan_subnet, handle_add_scan_subnet, handle_remove_scan_subnet,
}

abbrev pub accepted : (String → Bool) → String → Bool
accepted valid_cidr cidr = not (cidr == "") && valid_cidr cidr

add_lem :
    (valid_cidr : String → Bool) (form_value : String → String) (d : Fields)
    → Unique d.scan_subnets
    → let cidr = form_value "cidr" in
      let (status, after) = handle_add_scan_subnet valid_cidr (some form_value) d in
      (status ≡ (if accepted valid_cidr cidr then ok_status else bad_request))
      × Unique after.scan_subnets
      × ((s : String)
          → contains after.scan_subnets s
            ≡ ((accepted valid_cidr cidr && cidr == s) || contains d.scan_subnets s))
unfolding handle_add_scan_subnet add_scan_subnet
add_lem valid_cidr form_value d u =
    let cidr = form_value "cidr" in
    let (unique, has) = add_unique-set cidr d.scan_subnets u in
    elim (Bool-cases (cidr == "" || not (valid_cidr cidr))) [
      | inl e ↦ rw e (ground (arith, e), u, λ s. ground (arith, e))
      | inr e ↦ rw e (ground (arith, e), unique, λ s. ground (arith, e, has s))
    ]

remove_lem :
    (gone : String) (d : Fields)
    → Unique d.scan_subnets
    → let (status, after) = handle_remove_scan_subnet gone d in
      (status ≡ (if gone == "" then bad_request else ok_status))
      × Unique after.scan_subnets
      × ((s : String)
          → contains after.scan_subnets s
            ≡ (not (not (gone == "") && gone == s) && contains d.scan_subnets s))
unfolding handle_remove_scan_subnet remove_scan_subnet
remove_lem gone d u =
    let (unique, has) = remove_string-set gone d.scan_subnets u in
    elim (Bool-cases (gone == "")) [
      | inl e ↦ rw e (refl, u, λ s. refl)
      | inr e ↦ rw e (refl, unique, λ s. ground (arith, has s))
    ]

pub scan_subnets-kept :
    (valid_cidr : String → Bool) (form_value : String → String) (gone : String) (d : Fields)
    → Unique d.scan_subnets
    → let cidr = form_value "cidr" in
      let (status, after) = handle_add_scan_subnet valid_cidr (some form_value) d in
      let (status', last) = handle_remove_scan_subnet gone after in
      (status ≡ (if accepted valid_cidr cidr then ok_status else bad_request))
      × (status' ≡ (if gone == "" then bad_request else ok_status))
      × Unique last.scan_subnets
      × ((s : String)
          → contains last.scan_subnets s ≡ (
              not (not (gone == "") && gone == s)
              && ((accepted valid_cidr cidr && cidr == s) || contains d.scan_subnets s)))
scan_subnets-kept valid_cidr form_value gone d u =
    let (status, unique, has) = add_lem valid_cidr form_value d u in
    let (status', unique', has') =
      remove_lem gone (handle_add_scan_subnet valid_cidr (some form_value) d).1 unique in
    (
      status,
      status',
      unique',
      λ s. has' s ∙ ap (λ b. not (not (gone == "") && gone == s) && b) (has s),
    )
