-- ===== src/Cf/Ingress/Routes.antt =====
-- internal/cf/tunnel.go: where requests go before and after a change of the ingress rules.
use homelab_homepage.Prelude.{
  String, ◌≡◌, ◌≢◌, refl, Bool, true, false, ◌&&◌, Option, none, some, List, [], ◌∷◌, ◌++◌, arith,
  ◌==◌, ◌!=◌, string_eq, if◌then◌else◌, keep,
}
use homelab_homepage.Go.Text.{or_else}
use homelab_homepage.Cf.Api.{IngressRule}
use homelab_homepage.Cf.Ingress.{
  is_named, catch_all_of, or_default, rewrite_ingress, route_to, with_route, without_route,
  replace_route, route,
}

-- The first of two options that has a value.
abbrev first_of_two : Option String → Option String → Option String
first_of_two none y = y
first_of_two (some b) y = some b

route-append :
    (host : String) (xs ys : List IngressRule)
    → route host (xs ++ ys) ≡ first_of_two (route host xs) (route host ys)
unfolding route
route-append host [] ys = refl
route-append host (r ∷ xs) ys = ground (arith, route-append host xs ys)

-- No named rule is left for a host name that is removed; those for the others stay.
route-remove_hostname :
    (hostname host : String) (rules : List IngressRule)
    → hostname ≢ ""
    → route host (keep (λ r. r.hostname != hostname) (keep is_named rules))
      ≡ (if hostname == host then none else route host (keep is_named rules))
unfolding route
route-remove_hostname hostname host [] ne = ground arith
route-remove_hostname hostname host (r ∷ rules) ne =
    ground (arith, route-remove_hostname hostname host rules)

-- The rules as they are put back when nothing is changed: the catch-all stands last.
abbrev pub unchanged : List IngressRule → List IngressRule
unchanged rules = rewrite_ingress (λ rs. rs) rules

catch_all-hostname :
    (found : Option IngressRule) (rules : List IngressRule)
    → (or_default found).hostname ≡ ""
    → (or_default (catch_all_of found rules)).hostname ≡ ""
catch_all-hostname found [] h = h
catch_all-hostname found (r ∷ rs) h =
    catch_all-hostname (if r.hostname == "" then some r else found) rs (ground arith)

-- The service of the catch-all rule, or of the default one.
abbrev pub fallback : List IngressRule → String
fallback rules = (or_default (catch_all_of none rules)).service

route-last :
    (host : String) (rules : List IngressRule)
    → route host (or_default (catch_all_of none rules) ∷ []) ≡ some (fallback rules)
unfolding route
route-last host rules = ground (arith, catch_all-hostname none rules refl)

route-rewrite :
    (fn : List IngressRule → List IngressRule) (host : String) (rules : List IngressRule)
    → route host (rewrite_ingress fn rules)
      ≡ some (or_else (route host (fn (keep is_named rules))) (fallback rules))
unfolding rewrite_ingress
route-rewrite fn host rules = ground (
  arith,
  route-append host (fn (keep is_named rules)) (or_default (catch_all_of none rules) ∷ []),
  route-last host rules,
)

module _ (hostname host : String) (rules : List IngressRule) (ne : hostname ≢ "") where
  -- After a route is added its host goes to the backend, and every other host where the rules send
  -- it that are put back as they are.
  pub route-with_route :
      (backend : String)
      → route host (rewrite_ingress (with_route hostname backend) rules)
        ≡ (if hostname == host then some backend else route host (unchanged rules))
  unfolding with_route route
  route-with_route backend = ground (
    arith,
    ne,
    route-rewrite (with_route hostname backend) host rules,
    route-rewrite (λ rs. rs) host rules,
    route-append host (keep (λ r. r.hostname != hostname) (keep is_named rules))
        (route_to hostname backend ∷ []),
    route-remove_hostname hostname host rules ne,
  )

  -- After a route is removed its host goes to the catch-all, and every other host where those rules
  -- send it.
  pub route-without_route :
      route host (rewrite_ingress (without_route hostname) rules)
      ≡ (if hostname == host then some (fallback rules) else route host (unchanged rules))
  unfolding without_route route
  route-without_route = ground (
    arith,
    ne,
    route-rewrite (without_route hostname) host rules,
    route-rewrite (λ rs. rs) host rules,
    route-remove_hostname hostname host rules ne,
  )

-- After the replacement of one host name by another, different one, neither of them empty, the new
-- host goes to the backend only if it had no named rule before: a rule that was there for it
-- stays, and goes first.
pub route-replace_route :
    (old_hostname new_hostname backend : String) (rules : List IngressRule)
    → old_hostname ≢ ""
    → new_hostname ≢ ""
    → old_hostname ≢ new_hostname
    → route new_hostname (rewrite_ingress (replace_route old_hostname new_hostname backend) rules)
      ≡ some (or_else (route new_hostname (keep is_named rules)) backend)
unfolding replace_route route
route-replace_route old_hostname new_hostname backend rules ne nn diff = ground (
  arith,
  ne,
  nn,
  diff,
  route-rewrite (replace_route old_hostname new_hostname backend) new_hostname rules,
  route-append new_hostname (keep (λ r. r.hostname != old_hostname) (keep is_named rules))
      (route_to new_hostname backend ∷ []),
  route-remove_hostname old_hostname new_hostname rules ne,
)

-- Only the last rule is a catch-all.
abbrev pub ends_in_catch_all : List IngressRule → Bool
ends_in_catch_all [] = false
ends_in_catch_all (r ∷ []) = r.hostname == ""
ends_in_catch_all (r ∷ s ∷ rs) = r.hostname != "" && ends_in_catch_all (s ∷ rs)

abbrev pub all_named : List IngressRule → Bool
all_named [] = true
all_named (r ∷ rs) = is_named r && all_named rs

ends-append :
    (xs : List IngressRule) (r : IngressRule)
    → all_named xs ≡ true
    → r.hostname ≡ ""
    → ends_in_catch_all (xs ++ r ∷ []) ≡ true
ends-append [] r a h = ground arith
ends-append (x ∷ []) r a h = ground arith
ends-append (x ∷ y ∷ xs) r a h = ground (arith, ends-append (y ∷ xs) r)

all_named-keep :
    (p : IngressRule → Bool) (rules : List IngressRule)
    → all_named rules ≡ true
    → all_named (keep p rules) ≡ true
all_named-keep p [] a = refl
all_named-keep p (r ∷ rs) a = ground (arith, all_named-keep p rs)

all_named-named : (rules : List IngressRule) → all_named (keep is_named rules) ≡ true
all_named-named [] = refl
all_named-named (r ∷ rs) = ground (arith, all_named-named rs)

all_named-append :
    (xs : List IngressRule) (r : IngressRule)
    → all_named xs ≡ true
    → is_named r ≡ true
    → all_named (xs ++ r ∷ []) ≡ true
all_named-append [] r a h = ground arith
all_named-append (x ∷ xs) r a h = ground (arith, all_named-append xs r)

-- Whatever the rules were, those that the three operations on routes write, for a host name that
-- is not empty, end in a catch-all and have no other.
pub rewrite_ingress-ends :
    (hostname old_hostname backend : String) (rules : List IngressRule)
    → hostname ≢ ""
    → (ends_in_catch_all (rewrite_ingress (with_route hostname backend) rules) ≡ true)
      × (ends_in_catch_all (rewrite_ingress (without_route hostname) rules) ≡ true)
      × (ends_in_catch_all (rewrite_ingress (replace_route old_hostname hostname backend) rules)
          ≡ true)
unfolding rewrite_ingress with_route without_route replace_route
rewrite_ingress-ends hostname old_hostname backend rules ne =
    let last = catch_all-hostname none rules refl in
    let kept = λ (h : String).
      all_named-keep (λ r. r.hostname != h) (keep is_named rules) (all_named-named rules) in
    (
      ends-append _ _
          (all_named-append _ (route_to hostname backend) (kept hostname) (ground arith)) last,
      ends-append _ _ (kept hostname) last,
      ends-append _ _
          (all_named-append _ (route_to hostname backend) (kept old_hostname) (ground arith)) last,
    )
