-- ===== src/Web/Health/Checked.antt =====
-- internal/web/health.go: what a round of checks records.
use homelab_homepage.Prelude.{
  String, Bool, false, none, some, List, [], ◌∷◌, ◌++◌, any, ◌==◌, string_eq, if◌then◌else◌, ◌≡◌,
  refl, arith, ap, ◌∙◌,
}
use homelab_homepage.Go.Map.{Map, lookup, insert, lookup-insert, lookup-nil}
use homelab_homepage.Store.Data.{Service}
use homelab_homepage.Web.Health.{status_of, check_services, check_health}

abbrev pub has_id : String → Service → Bool
has_id i svc = svc.id == i

module _ (reachable : String → Bool) where
  -- Services with other ids leave an entry alone.
  check_services-other :
      (services : List Service) (i : String) (result : Map String)
      → any (has_id i) services ≡ false
      → lookup i (check_services reachable services result) ≡ lookup i result
  unfolding check_services
  check_services-other [] i result h = refl
  check_services-other (svc ∷ services) i result h =
      let next =
        if svc.skip_health then result else insert svc.id (status_of reachable svc) result in
      check_services-other services i next (ground (arith, h))
      ∙ ground (arith, h, lookup-insert i svc.id (status_of reachable svc) result)

  check_services-one :
      (before : List Service) (svc : Service) (after : List Service) (result : Map String)
      → any (has_id svc.id) before ≡ false
      → any (has_id svc.id) after ≡ false
      → lookup svc.id (check_services reachable (before ++ svc ∷ after) result)
        ≡ (if svc.skip_health then lookup svc.id result else some (status_of reachable svc))
  unfolding check_services
  check_services-one [] svc after result b a =
      check_services-other after svc.id _ a
      ∙ ground (arith, lookup-insert svc.id svc.id (status_of reachable svc) result)
  check_services-one (o ∷ before) svc after result b a =
      let next = if o.skip_health then result else insert o.id (status_of reachable o) result in
      check_services-one before svc after next (ground (arith, b)) a
      ∙ ground (arith, b, lookup-insert svc.id o.id (status_of reachable o) result)

  -- A service that is the only one with its id is recorded by what its target answers, or not at all
  -- if its checks are skipped, whatever was recorded before.
  pub check_health_lem :
      (before : List Service) (svc : Service) (after : List Service) (health : Map String)
      → any (has_id svc.id) before ≡ false
      → any (has_id svc.id) after ≡ false
      → lookup svc.id (check_health reachable (before ++ svc ∷ after) health)
        ≡ (if svc.skip_health then none else some (status_of reachable svc))
  unfolding check_health
  check_health_lem [] svc after health b a =
      check_services-one [] svc after [] b a
      ∙ ap (λ k. if svc.skip_health then k else some (status_of reachable svc))
          (lookup-nil {V = String} svc.id)
  check_health_lem (o ∷ before) svc after health b a =
      check_services-one (o ∷ before) svc after [] b a
      ∙ ap (λ k. if svc.skip_health then k else some (status_of reachable svc))
          (lookup-nil {V = String} svc.id)

  -- An id that no service has is recorded no more after a round, unless there is no service at all:
  -- then what was recorded stays.
  pub check_health-gone :
      (services : List Service) (i : String) (health : Map String)
      → any (has_id i) services ≡ false
      → lookup i (check_health reachable services health)
        ≡ elim services [ [] ↦ lookup i health | _ ∷ _ ↦ none ]
  unfolding check_health
  check_health-gone [] i health h = refl
  check_health-gone (svc ∷ services) i health h =
      check_services-other (svc ∷ services) i [] h ∙ lookup-nil {V = String} i
