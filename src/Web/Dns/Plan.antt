-- ===== src/Web/Dns/Plan.antt =====
-- internal/web/handle_services.go: which changes of the DNS state lead to calls.
use homelab_homepage.Prelude.{◌≡◌, Bool, true, false, ◌&&◌, ◌==◌, string_eq, arith}
use homelab_homepage.Web.Dns.{
  DnsState, DnsMode, mode_direct, mode_a_record, mode_tunnel, mode, DnsAction, dns_noop, plan_dns,
}

-- What a service shows to DNS: its mode, and of its name and target what the mode uses.
abbrev pub same_mode : DnsMode → DnsMode → Bool
same_mode mode_direct mode_direct = true
same_mode mode_a_record mode_a_record = true
same_mode mode_tunnel mode_tunnel = true
same_mode _ _ = false

abbrev pub same_use : DnsMode → DnsState → DnsState → Bool
same_use mode_direct old want = true
same_use mode_a_record old want = want.subdomain == old.subdomain
same_use mode_tunnel old want = want.subdomain == old.subdomain && want.target == old.target

abbrev pub is_noop : DnsAction → Bool
is_noop dns_noop = true
is_noop _ = false

-- The plan is to do nothing exactly when the old and the wanted mode agree and so does what the
-- mode uses: for an A record the subdomain, for a tunnel the subdomain and the target, for a
-- direct link nothing.
pub plan_dns-noop :
    (old want : DnsState)
    → is_noop (plan_dns old want)
      ≡ (same_mode (mode old) (mode want) && same_use (mode old) old want)
unfolding plan_dns
plan_dns-noop old want = ground arith
