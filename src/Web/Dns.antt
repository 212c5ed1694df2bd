-- ===== src/Web/Dns.antt =====
-- internal/web/handle_services.go: from the old and the wanted DNS state of a service to calls of
-- the Cloudflare client. Errors of those calls are logged, which `attempt` stands for.
pub mod Plan
pub mod Outcome
use homelab_homepage.Prelude.{
  String, ◌<>◌, Bool, ◌||◌, Option, none, some, ◌==◌, ◌!=◌, string_eq, if◌then◌else◌,
}
use homelab_homepage.Cf.Act.{Act, pure, ◌>>=◌, ◌>>◌, attempt}
use homelab_homepage.Cf.Api.{Api}
use homelab_homepage.Cf.Client.{Client, tunnel_enabled}
use homelab_homepage.Cf.Dns.{create_record, delete_record}
use homelab_homepage.Cf.Tunnel.{add_tunnel_route, remove_tunnel_route, replace_tunnel_route}

pub record DnsState : Type 0 where
  pub subdomain : String
  pub target : String
  pub direct_only : Bool
  pub tunnel : Bool
  pub dns_record_id : String
  pub tunnel_route_id : String

pub data DnsMode : Type 0 where
  mode_direct mode_a_record mode_tunnel : DnsMode

abbrev pub mode : DnsState → DnsMode
mode d = if d.direct_only then mode_direct else if d.tunnel then mode_tunnel else mode_a_record

pub data DnsAction : Type 0 where
  dns_noop dns_create_a dns_delete_all dns_swap_a dns_create_tunnel dns_a_to_tunnel : DnsAction
  dns_tunnel_to_a dns_replace_tunnel : DnsAction

abbrev pub plan_modes : DnsMode → DnsMode → DnsState → DnsState → DnsAction
plan_modes mode_direct mode_direct old want = dns_noop
plan_modes mode_direct mode_a_record old want = dns_create_a
plan_modes mode_direct mode_tunnel old want = dns_create_tunnel
plan_modes mode_a_record mode_direct old want = dns_delete_all
plan_modes mode_a_record mode_a_record old want =
    if want.subdomain != old.subdomain then dns_swap_a else dns_noop
plan_modes mode_a_record mode_tunnel old want = dns_a_to_tunnel
plan_modes mode_tunnel mode_direct old want = dns_delete_all
plan_modes mode_tunnel mode_a_record old want = dns_tunnel_to_a
plan_modes mode_tunnel mode_tunnel old want =
    if want.subdomain != old.subdomain || want.target != old.target
    then dns_replace_tunnel
    else dns_noop

unfoldable pub plan_dns : DnsState → DnsState → DnsAction
plan_dns old want = plan_modes (mode old) (mode want) old want

-- The ids that are stored after a creation, or two empty ones after its failure.
abbrev pub recorded : String → Option String → String × String
recorded route (some id) = (id, route)
recorded route none = ("", "")

-- The same where a failure keeps the old ids.
abbrev pub replaced_or_kept : DnsState → String → Option String → String × String
replaced_or_kept old route (some id) = (id, route)
replaced_or_kept old route none = (old.dns_record_id, old.tunnel_route_id)

abbrev pub hostname_of : String → DnsState → String
hostname_of domain d = d.subdomain <> ("." <> domain)

module _ (api : Api) (c : Client) (domain server_ip : String) where
  open api use {World}

  unfoldable pub create_a : DnsState → Act World (String × String)
  create_a want = if server_ip == "" then pure ("", "") else (do
    made ← attempt (create_record api c (hostname_of domain want) server_ip)
    pure (recorded "" made))

  unfoldable pub delete_old : DnsState → Act World (Option (Unit {0}))
  delete_old old =
      if old.dns_record_id == "" then pure none else attempt (delete_record api c old.dns_record_id)

  unfoldable pub add_route : DnsState → Act World (String × String)
  add_route want = do
    made ← attempt (add_tunnel_route api c (hostname_of domain want) want.target)
    pure (recorded (hostname_of domain want) made)

  unfoldable pub apply_action : DnsAction → DnsState → DnsState → Act World (String × String)
  apply_action dns_noop old want = pure (old.dns_record_id, old.tunnel_route_id)
  apply_action dns_create_a old want = create_a want
  apply_action dns_delete_all old want = do
    (if old.tunnel_route_id == ""
        then delete_old old
        else attempt (remove_tunnel_route api c old.tunnel_route_id old.dns_record_id))
    pure ("", "")
  apply_action dns_swap_a old want = do delete_old old; create_a want
  apply_action dns_create_tunnel old want =
      if tunnel_enabled c then add_route want else pure ("", "")
  apply_action dns_a_to_tunnel old want =
      if tunnel_enabled c then (do delete_old old; add_route want) else pure ("", "")
  apply_action dns_tunnel_to_a old want = do
    attempt (remove_tunnel_route api c old.tunnel_route_id old.dns_record_id)
    create_a want
  apply_action dns_replace_tunnel old want =
      if tunnel_enabled c
      then (do
        made ← attempt (
            replace_tunnel_route api c (hostname_of domain old) (hostname_of domain want)
              want.target old.dns_record_id)
        pure (replaced_or_kept old (hostname_of domain want) made))
      else pure ("", "")

  unfoldable pub reconcile_dns : DnsState → DnsState → Act World (String × String)
  reconcile_dns old want = apply_action (plan_dns old want) old want
