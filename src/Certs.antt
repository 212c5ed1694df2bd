-- ===== src/Certs.antt =====
-- internal/certs/certs.go: which certificate is served, and the files that it is kept in. The ACME
-- client, the parsing of certificates and encoding/json are parameters.
pub mod Served
mod Tests
use homelab_homepage.Prelude.{
  ℕ, ◌+◌, ◌*◌, String, Bool, true, false, ◌&&◌, ◌||◌, not, Option, none, some, ltb, if◌then◌else◌,
}

-- certificate.Resource: the two texts, and what else there is of it.
pub record Resource : Type 0 where
  pub certificate : String
  pub private_key : String
  pub other : String

-- tls.Certificate; `not_after` is the end of its leaf, in seconds, if the leaf can be parsed.
pub record Cert : Type 0 where
  pub chain : String
  pub not_after : Option ℕ

-- `key_pair` is tls.X509KeyPair; `marshal` and `unmarshal` are those of encoding/json for a resource.
pub record Lib : Type 0 where
  pub key_pair : String → String → Option Cert
  pub marshal : Resource → String
  pub unmarshal : String → Option Resource

-- cert.pem, key.pem and resource.json; a file that cannot be read is `none`.
pub record Files : Type 0 where
  pub cert_pem : Option String
  pub key_pem : Option String
  pub resource_json : Option String

pub record Manager : Type 0 where
  pub cert : Option Cert
  pub files : Files

-- What one call meets outside. `client` is whether the ACME client could be built, `obtained` is what
-- it obtains, `renewed` is what it makes of a resource, `self_signed` is the certificate that
-- `useSelfSigned` makes and parses, and the last three say which files can be written.
pub record World : Type 0 where
  pub now : ℕ
  pub client : Bool
  pub obtained : Option Resource
  pub renewed : Resource → Option Resource
  pub self_signed : Option Cert
  pub writes_cert : Bool
  pub writes_key : Bool
  pub writes_resource : Bool

-- 30*24*time.Hour
abbrev pub thirty_days : ℕ
thirty_days = 2592000

-- time.Until(leaf.NotAfter) < 30*24*time.Hour, of a leaf that there is.
abbrev pub is_due : ℕ → Option ℕ → Bool
is_due now none = false
is_due now (some not_after) = ltb not_after (now + thirty_days)

-- `none` is the error that there is no certificate.
unfoldable pub get_certificate : Manager → Option Cert
get_certificate m = m.cert

module _ (lib : Lib) (w : World) where
  abbrev pub load_pair : Option Cert → Manager → Bool × Manager
  load_pair none m = (false, m)
  load_pair (some c) m =
      if is_due w.now c.not_after then (false, m) else (true, record m { cert = some c })

  abbrev pub load_files : Option String → Option String → Manager → Bool × Manager
  load_files (some cert) (some key) m = load_pair (lib.key_pair cert key) m
  load_files _ _ m = (false, m)

  unfoldable pub try_load_existing : Manager → Bool × Manager
  try_load_existing m = load_files m.files.cert_pem m.files.key_pem m

  abbrev pub use_pair : Option Cert → Manager → Bool × Manager
  use_pair none m = (false, m)
  use_pair (some c) m = (true, record m { cert = some c })

  -- With whether there was no error.
  unfoldable pub save_cert : Resource → Manager → Bool × Manager
  save_cert res m =
      if not w.writes_cert
      then (false, m)
      else let m₁ = record m { files = record m.files { cert_pem = some res.certificate } } in
        if not w.writes_key
        then (false, m₁)
        else let m₂ = record m₁ { files = record m₁.files { key_pem = some res.private_key } } in
          let m₃ = record m₂ {
            files = record m₂.files { resource_json = some (lib.marshal res) };
          } in
          use_pair (lib.key_pair res.certificate res.private_key)
            (if w.writes_resource then m₃ else m₂)

  abbrev pub save_answer : Option Resource → Manager → Bool × Manager
  save_answer none m = (false, m)
  save_answer (some res) m = save_cert res m

  unfoldable pub obtain : Manager → Bool × Manager
  obtain m = if w.client then save_answer w.obtained m else (false, m)

  abbrev pub renew_resource : Option Resource → Manager → Bool × Manager
  renew_resource none m = obtain m
  renew_resource (some res) m = if w.client then save_answer (w.renewed res) m else (false, m)

  abbrev pub renew_file : Option String → Manager → Bool × Manager
  renew_file none m = obtain m
  renew_file (some raw) m = renew_resource (lib.unmarshal raw) m

  unfoldable pub renew : Manager → Bool × Manager
  renew m = renew_file m.files.resource_json m

  unfoldable pub use_self_signed : Manager → Bool × Manager
  use_self_signed m = use_pair w.self_signed m

  abbrev pub or_self_signed : Bool × Manager → Bool × Manager
  or_self_signed (true, m) = (true, m)
  or_self_signed (false, m) = use_self_signed m

  abbrev pub or_obtain : Bool × Manager → Bool × Manager
  or_obtain (true, m) = (true, m)
  or_obtain (false, m) = or_self_signed (obtain m)

  unfoldable pub ensure_cert : Manager → Bool × Manager
  ensure_cert m = or_obtain (try_load_existing m)

  abbrev pub tick_cert : Option Cert → Manager → Manager
  tick_cert none m = (ensure_cert m).1
  tick_cert (some c) m = if is_due w.now c.not_after then (renew m).1 else m

  -- One round of `RenewLoop`.
  unfoldable pub renew_tick : Manager → Manager
  renew_tick m = tick_cert m.cert m
