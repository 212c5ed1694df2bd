-- ===== src/Cf/Ingress/Entries.antt =====
-- internal/cf/tunnel.go: what the rules of a tunnel, as the service keeps them, are after they were
-- read, changed and written back.
use mathlib.Core.Option
use homelab_homepage.Prelude.{
  String, ◌≡◌, ◌≢◌, refl, Bool, true, ◌&&◌, Option, none, some, List, [], ◌∷◌, ◌++◌, map, arith,
  ◌==◌, ◌!=◌, string_eq, if◌then◌else◌, keep, ◌∙◌, ap, sym,
}
use homelab_homepage.Go.Text.{or_else}
use homelab_homepage.Cf.Api.{IngressRule, IngressEntry, decoded, encoded}
use homelab_homepage.Cf.Ingress.{
  default_rule, is_named, catch_all_of, or_default, rewrite_ingress, with_route, without_route,
  route, routed,
}
use homelab_homepage.Cf.Ingress.Routes.{unchanged, fallback, route-with_route, route-without_route}

-- An entry without its path and its settings.
abbrev pub stripped : IngressEntry → IngressEntry
stripped e = record e { path = ""; origin_request = "" }

-- There is no entry at all, or the last one is for all hosts, and no other is.
abbrev pub is_accepted : List IngressEntry → Bool
is_accepted [] = true
is_accepted (e ∷ []) = e.hostname == ""
is_accepted (e ∷ f ∷ es) = e.hostname != "" && is_accepted (f ∷ es)

abbrev pub plain : Option String → Option (String × String)
plain = Option.map λ service. (service, "")

-- A request for a host whose entries name no service is answered with status 404.
abbrev pub not_routed : String × String
not_routed = ("http_status:404", "")

known_some : (o : Option String) → o ≢ none → plain o ≡ some (or_else (plain o) not_routed)
known_some none ne = absurd (ne refl)
known_some (some service) ne = refl

module _ (matches : String → String → Bool) (host path : String) where
  pub routed-encoded :
      (rules : List IngressRule)
      → routed matches host path (map encoded rules) ≡ plain (route host rules)
  unfolding routed route
  routed-encoded [] = refl
  routed-encoded (r ∷ rs) = ground (arith, routed-encoded rs)

  routed-stripped :
      (es : List IngressEntry)
      → routed matches host path (map stripped es) ≡ plain (route host (map decoded es))
  unfolding routed route
  routed-stripped [] = refl
  routed-stripped (e ∷ es) = ground (arith, routed-stripped es)

  -- The host of a route that is added goes to its backend, whatever was there.
  pub routed-added :
      (backend : String) (es : List IngressEntry)
      → host ≢ ""
      → routed matches host path
          (map encoded (rewrite_ingress (with_route host backend) (map decoded es)))
        ≡ some (backend, "")
  routed-added backend es ne =
      routed-encoded (rewrite_ingress (with_route host backend) (map decoded es))
      ∙ ground (arith, route-with_route host host (map decoded es) ne backend)

  -- Rules that are read and written back go where they went.
  kept_with :
      (found : Option IngressRule) (e : IngressEntry) (es : List IngressEntry)
      → is_accepted (e ∷ es) ≡ true
      → route host (
          keep is_named (map decoded (e ∷ es))
          ++ or_default (catch_all_of found (map decoded (e ∷ es))) ∷ [])
        ≡ route host (map decoded (e ∷ es))
  unfolding route
  kept_with found e [] h = ground arith
  kept_with found e (f ∷ es) h = ground (arith, kept_with found f es)

  route-accepted :
      (e : IngressEntry) (es : List IngressEntry)
      → is_accepted (e ∷ es) ≡ true
      → route host (map decoded (e ∷ es)) ≢ none
  unfolding route
  route-accepted e [] h = ground arith
  route-accepted e (f ∷ es) h = ground (arith, route-accepted f es)

  route-default : route host (default_rule ∷ []) ≡ some "http_status:404"
  unfolding route
  route-default = ground arith

  route-unchanged :
      (es : List IngressEntry)
      → is_accepted es ≡ true
      → plain (route host (unchanged (map decoded es)))
        ≡ some (or_else (routed matches host path (map stripped es)) not_routed)
  unfolding rewrite_ingress routed
  route-unchanged [] h = ap plain route-default
  route-unchanged (e ∷ es) h =
      ap plain (kept_with none e es h)
      ∙ known_some (route host (map decoded (e ∷ es))) (route-accepted e es h)
      ∙ ap (λ o. some (or_else o not_routed)) (sym (routed-stripped (e ∷ es)))

  module _ (hostname : String) (es : List IngressEntry) (accepted : is_accepted es ≡ true)
      (ne : hostname ≢ "") where
    -- After a route is added to accepted entries, every other host goes where the entries sent it
    -- that were there, without their paths and settings.
    pub routed-with_route :
        (backend : String)
        → routed matches host path
            (map encoded (rewrite_ingress (with_route hostname backend) (map decoded es)))
          ≡ (if hostname == host
              then some (backend, "")
              else some (or_else (routed matches host path (map stripped es)) not_routed))
    routed-with_route backend =
        let rules = map decoded es in
        routed-encoded (rewrite_ingress (with_route hostname backend) rules)
        ∙ ground
            (arith, route-with_route hostname host rules ne backend, route-unchanged es accepted)

    pub routed-without_route :
        routed matches host path
          (map encoded (rewrite_ingress (without_route hostname) (map decoded es)))
        ≡ (if hostname == host
            then some (fallback (map decoded es), "")
            else some (or_else (routed matches host path (map stripped es)) not_routed))
    routed-without_route =
        let rules = map decoded es in
        routed-encoded (rewrite_ingress (without_route hostname) rules)
        ∙ ground (arith, route-without_route hostname host rules ne, route-unchanged es accepted)
