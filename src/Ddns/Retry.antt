-- ===== src/Ddns/Retry.antt =====
-- internal/ddns/ddns.go: two checks, one after the other.
use homelab_homepage.Prelude.{String, ◌≡◌, Option, string_eq, arith}
use homelab_homepage.Cf.Api.{Api}
use homelab_homepage.Cf.Client.{Client}
use homelab_homepage.Ddns.{Ddns, check_and_update}

-- A second check that gets the same answer changes nothing and sends nothing, whatever the calls
-- of the first answered: a record that could not be written is not tried again while the address
-- stays.
pub check_and_update_again :
    (api : Api) (c : Client) (answer : Option String) (m : Ddns) (w : api.World)
    → check_and_update api c answer
        (check_and_update api c answer m w).0
        (check_and_update api c answer m w).1
      ≡ check_and_update api c answer m w
unfolding check_and_update
check_and_update_again api c answer m w = ground arith
