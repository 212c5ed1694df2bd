-- ===== src/Ddns.antt =====
-- internal/ddns/ddns.go: one check of the public address. The answer of the address service is an
-- argument, `none` where it fails. Logs and the save at the end are not part of this.
pub mod Retry
use homelab_homepage.Prelude.{
  String, Option, none, some, List, [], ◌∷◌, ◌==◌, string_eq, if◌then◌else◌,
}
use homelab_homepage.Cf.Act.{Act, Result, ok, pure, attempt, ◌>>=◌, ◌>>◌}
use homelab_homepage.Cf.Api.{Api}
use homelab_homepage.Cf.Client.{Client}
use homelab_homepage.Cf.Dns.{find_record, create_record, update_record}

-- What the manager reads and writes of the store.
pub record Ddns : Type 0 where
  pub ddns_domains : List String
  pub public_ip : String

module _ (api : Api) (c : Client) where
  open api use {World}

  -- The round of the loop for one domain, after `FindRecord`.
  abbrev pub settle : String → String → Option (String × String) → Act World (Unit {0})
  settle domain ip none = pure tt
  settle domain ip (some (id, current)) =
      if id == ""
      then (do attempt (create_record api c domain ip); pure tt)
      else if current == ip
      then pure tt
      else (do attempt (update_record api c id ip); pure tt)

  unfoldable pub update_domains : String → List String → Act World (Unit {0})
  update_domains ip [] = pure tt
  update_domains ip (domain ∷ domains) = do
    found ← attempt (find_record api c domain)
    settle domain ip found
    update_domains ip domains

  abbrev pub changed : String → Ddns → World → Ddns × World
  changed ip m w = (record m { public_ip = ip }, (update_domains ip m.ddns_domains w).1)

  abbrev pub check_of : List String → Option String → Ddns → World → Ddns × World
  check_of [] answer m w = (m, w)
  check_of (d ∷ ds) none m w = (m, w)
  check_of (d ∷ ds) (some ip) m w = if ip == m.public_ip then (m, w) else changed ip m w

  unfoldable pub check_and_update : Option String → Ddns → World → Ddns × World
  check_and_update answer m w = check_of m.ddns_domains answer m w
