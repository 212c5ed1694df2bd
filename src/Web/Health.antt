-- ===== src/Web/Health.antt =====
-- internal/web/health.go: one round of `checkHealth`, and the answer of `getHealth`. `reachable` is
-- whether a GET of the target gives a response. The checks end in any order: the list is in the order
-- in which they end.
pub mod Checked
use homelab_homepage.Prelude.{String, Bool, true, false, List, [], ◌∷◌, if◌then◌else◌}
use homelab_homepage.Go.Map.{Map, insert}
use homelab_homepage.Store.Data.{Service}

abbrev pub health_up : String
health_up = "up"

abbrev pub health_down : String
health_down = "down"

module _ (reachable : String → Bool) where
  abbrev pub status_of : Service → String
  status_of svc = if reachable svc.target then health_up else health_down

  -- The loop, with `result`.
  unfoldable pub check_services : List Service → Map String → Map String
  check_services [] result = result
  check_services (svc ∷ services) result =
      check_services services
        (if svc.skip_health then result else insert svc.id (status_of svc) result)

  -- `services` is what `GetAllServices` gives, and `health` the field of the server.
  unfoldable pub check_health : List Service → Map String → Map String
  check_health [] health = health
  check_health (svc ∷ services) health = check_services (svc ∷ services) []

abbrev pub health_snapshot : Map String → Map String
health_snapshot health = health
