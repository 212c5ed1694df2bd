-- ===== src/Cf/Dns.antt =====
-- The DNS records of internal/cf/cf.go.
use homelab_homepage.Prelude.{
  String, ◌<>◌, true, false, ◌||◌, List, [], ◌∷◌, ◌==◌, string_eq, if◌then◌else◌,
}
use homelab_homepage.Cf.Act.{Result, ok, err, decode_failed, Act, pure, ◌>>=◌, ◌>>◌}
use homelab_homepage.Cf.Api.{
  Api, DnsRecord, DnsParams, Response, record_of, records, post_dns, patch_dns, delete_dns,
  find_dns,
}
use homelab_homepage.Cf.Client.{Client}

abbrev pub as_record : Response → Result String
as_record (record_of id) = ok id
as_record _ = err decode_failed

abbrev pub as_records : Response → Result (List DnsRecord)
as_records (records rs) = ok rs
as_records _ = err decode_failed

-- The first record's id and content, or two empty texts.
abbrev pub first_record : List DnsRecord → String × String
first_record [] = ("", "")
first_record (r ∷ _) = (r.id, r.content)

abbrev pub a_record : String → String → DnsParams
a_record name ip = record { kind = "A"; name = name; content = ip; ttl = 60; proxied = false }

abbrev pub cname_record : String → String → DnsParams
cname_record hostname tunnel_id = record {
  kind = "CNAME";
  name = hostname;
  content = tunnel_id <> ".cfargotunnel.com";
  ttl = 1;
  proxied = true;
}

module _ (api : Api) (c : Client) where
  open api use {World, send}

  unfoldable pub create_dns_record : DnsParams → Act World String
  create_dns_record params = do r ← send (post_dns c.zone_id params); (λ w. (as_record r, w))

  unfoldable pub create_record : String → String → Act World String
  unfolding create_dns_record
  create_record name ip = if c.noop then pure "" else create_dns_record (a_record name ip)

  unfoldable pub update_record : String → String → Act World (Unit {0})
  update_record id ip = if c.noop then pure tt else (do send (patch_dns c.zone_id id ip); pure tt)

  unfoldable pub delete_record : String → Act World (Unit {0})
  delete_record id = if c.noop then pure tt else (do send (delete_dns c.zone_id id); pure tt)

  unfoldable pub find_record : String → Act World (String × String)
  find_record name = if c.noop then pure ("", "") else (do
    r ← send (find_dns c.zone_id name)
    rs ← (λ w. (as_records r, w))
    pure (first_record rs))

  -- The branch of `EnsureARecord` for the record that was found.
  ensure_found : String → String → String × String → Act World (Unit {0})
  unfolding create_record update_record
  ensure_found name ip (id, current) =
      if id == ""
      then (do create_record name ip; pure tt)
      else if current == ip
      then pure tt
      else update_record id ip

  unfoldable pub ensure_a_record : String → String → Act World (Unit {0})
  unfolding find_record ensure_found
  ensure_a_record name ip =
      if c.noop then pure tt else (do found ← find_record name; ensure_found name ip found)

  unfoldable pub create_cname : String → Act World String
  unfolding create_dns_record
  create_cname hostname =
      if c.noop || c.zone_id == ""
      then pure ""
      else create_dns_record (cname_record hostname c.tunnel_id)
