-- ===== src/Web/Dns/Outcome.antt =====
-- internal/web/handle_services.go: what is stored on a service after its DNS state was reconciled.
use homelab_homepage.Prelude.{String, ◌≡◌, refl, false, string_eq, arith}
use homelab_homepage.Cf.Act.{Result, ok, err}
use homelab_homepage.Cf.Api.{Api}
use homelab_homepage.Cf.Client.{Client, tunnel_enabled}
use homelab_homepage.Cf.Tunnel.Served.{Served}
use homelab_homepage.Web.Dns.{
  DnsState, DnsMode, mode_direct, mode_a_record, mode_tunnel, mode, plan_dns, create_a, delete_old,
  add_route, apply_action, reconcile_dns,
}

-- What the code stores on a service: a route id exactly in tunnel mode, no id in direct mode.
abbrev pub IsStored : DnsMode → String → String → Type 0
IsStored mode_direct id route = (id ≡ "") × (route ≡ "")
IsStored mode_a_record id route = route ≡ ""
IsStored mode_tunnel id route = Unit

module _ (api : Api) (c : Client) (domain server_ip : String) where
  open api use {World}

  -- The run ends, with ids that fit the wanted mode.
  abbrev pub Ends : DnsMode → Result (String × String) × World → Type 0
  Ends m (ok (id, route), w) = IsStored m id route
  Ends m (err e, w) = ⊥

  -- Whatever the calls answer, the reconciliation succeeds, and from ids that fit the old mode it
  -- gets ids that fit the wanted one: no id at all for a direct link, and no route for an A
  -- record.
  pub reconcile_dns-IsStored :
      (old want : DnsState) (w : World)
      → IsStored (mode old) old.dns_record_id old.tunnel_route_id
      → Ends (mode want) (reconcile_dns api c domain server_ip old want w)
  unfolding reconcile_dns apply_action plan_dns create_a add_route delete_old
  reconcile_dns-IsStored old want w stored = ground arith

  -- While the tunnel is off, the change from an A record to the tunnel stores two empty ids
  -- without any call to Cloudflare, so that the id of the old record is lost and the record stays.
  pub reconcile_dns_off :
      (old want : DnsState) (w : World)
      → tunnel_enabled c ≡ false
      → mode old ≡ mode_a_record
      → mode want ≡ mode_tunnel
      → reconcile_dns api c domain server_ip old want w ≡ (ok ("", ""), w)
  unfolding reconcile_dns apply_action plan_dns
  reconcile_dns_off old want w off from to = rw (from, to, off) refl
