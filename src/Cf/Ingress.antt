-- ===== src/Cf/Ingress.antt =====
-- The ingress rules of internal/cf/tunnel.go: what `modifyIngress` makes of the rules that it gets.
pub mod Routes
pub mod Entries
use homelab_homepage.Prelude.{
  String, ◌≡◌, ◌≢◌, refl, Bool, true, false, ◌&&◌, ◌||◌, not, Option, none, some, List, [], ◌∷◌,
  ◌++◌, arith, ◌==◌, ◌!=◌, string_eq, if◌then◌else◌, keep, ◌∙◌, ap, Bool-cases, inl, inr,
}
use homelab_homepage.Cf.Api.{IngressRule, IngressEntry}

abbrev pub is_named : IngressRule → Bool
is_named r = r.hostname != ""

-- The loop over the rules: the named ones, and the last one without a host name.
abbrev pub catch_all_of : Option IngressRule → List IngressRule → Option IngressRule
catch_all_of found [] = found
catch_all_of found (r ∷ rs) = catch_all_of (if r.hostname == "" then some r else found) rs

abbrev pub default_rule : IngressRule
default_rule = record { hostname = ""; service = "http_status:404" }

abbrev pub or_default : Option IngressRule → IngressRule
or_default none = default_rule
or_default (some r) = r

unfoldable pub rewrite_ingress :
    (List IngressRule → List IngressRule) → List IngressRule → List IngressRule
rewrite_ingress fn rules = fn (keep is_named rules) ++ or_default (catch_all_of none rules) ∷ []

unfoldable pub remove_hostname : List IngressRule → String → List IngressRule
remove_hostname rules hostname = keep (λ r. r.hostname != hostname) rules

abbrev pub route_to : String → String → IngressRule
route_to hostname backend = record { hostname = hostname; service = backend }

-- The changes that the three operations on routes pass to `modifyIngress`.
unfoldable pub with_route : String → String → List IngressRule → List IngressRule
unfolding remove_hostname
with_route hostname backend rules = remove_hostname rules hostname ++ route_to hostname backend ∷ []

unfoldable pub without_route : String → List IngressRule → List IngressRule
unfolding remove_hostname
without_route hostname rules = remove_hostname rules hostname

unfoldable pub replace_route : String → String → String → List IngressRule → List IngressRule
unfolding remove_hostname
replace_route old_hostname new_hostname backend rules =
    remove_hostname rules old_hostname ++ route_to new_hostname backend ∷ []

-- Where cloudflared sends a request for `host`: the first rule with that name, or a catch-all.
unfoldable pub route : String → List IngressRule → Option String
route host [] = none
route host (r ∷ rs) =
    let later = route host rs in
    if r.hostname == host || r.hostname == "" then some r.service else later

-- Where cloudflared sends a request for `host` with this path, and with what settings: the first
-- entry for the host, or for all hosts, whose pattern is empty or matches the path.
module _ (matches : String → String → Bool) (host path : String) where
  unfoldable pub routed : List IngressEntry → Option (String × String)
  routed [] = none
  routed (e ∷ es) =
      let later = routed es in
      if (e.hostname == host || e.hostname == "") && (e.path == "" || matches e.path path)
      then some (e.service, e.origin_request)
      else later
