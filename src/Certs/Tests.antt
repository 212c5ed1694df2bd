-- ===== src/Certs/Tests.antt =====
-- Certificates at a concrete library and world.
use homelab_homepage.Prelude.{
  ◌≡◌, ◌≢◌, refl, true, false, none, some, [], ◌∷◌, arith, if◌then◌else◌, ◌==◌, string_eq,
}
use homelab_homepage.Certs.{Resource, Cert, Lib, Manager, World, get_certificate, ensure_cert}
use homelab_homepage.Certs.Served.{ensure_cert_lem, renew_loop, DropsTexts, renew_loop-fails}

-- A pair of equal texts fits; the JSON of a resource has only its other fields.
abbrev lib : Lib
lib = record {
  key_pair = λ cert key.
      if cert == key then some (record { chain = cert; not_after = some 7776000 }) else none;
  marshal = λ res. res.other;
  unmarshal = λ raw. some (record { certificate = ""; private_key = ""; other = raw });
}

-- Sixty-nine days later, a certificate can be obtained, and one that is there can be renewed.
abbrev world : World
world = record {
  now = 6000000;
  client = true;
  obtained = some (record { certificate = "c2"; private_key = "c2"; other = "url" });
  renewed = λ res.
      if res.certificate == ""
      then none
      else some (record { certificate = "c2"; private_key = "c2"; other = "url" });
  self_signed = none;
  writes_cert = true;
  writes_key = true;
  writes_resource = true;
}

abbrev empty : Manager
empty = record {
  cert = none;
  files = record { cert_pem = none; key_pem = none; resource_json = none };
}

ensure_cert_lem_example :
    ((ensure_cert lib world empty).0 ≡ true
      → get_certificate (ensure_cert lib world empty).1 ≢ none)
    × ((ensure_cert lib world empty).0 ≡ false → world.self_signed ≡ none)
ensure_cert_lem_example = ensure_cert_lem lib world empty

abbrev first : Cert
first = record { chain = "c1"; not_after = some 7776000 }

abbrev saved : Manager
saved = record {
  cert = some first;
  files = record { cert_pem = some "c1"; key_pem = some "c1"; resource_json = some "url" };
}

abbrev read : Resource
read = record { certificate = ""; private_key = ""; other = "url" }

world-DropsTexts : DropsTexts lib world
world-DropsTexts = record {
  dropped = λ raw res e. ground (arith, e);
  refused = λ res e. ground (arith, e);
}

renew_loop-fails_example : renew_loop lib (world ∷ world ∷ []) saved ≡ saved
renew_loop-fails_example =
    renew_loop-fails lib (world ∷ world ∷ []) saved first "url" read
      (world-DropsTexts, (world-DropsTexts, tt)) refl refl refl
