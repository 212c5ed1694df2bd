-- ===== src/Certs/Served.antt =====
-- internal/certs/certs.go: what `EnsureCert` and the rounds of `RenewLoop` leave.
use homelab_homepage.Prelude.{
  ℕ, ◌+◌, ◌≤◌, String, Bool, true, false, Option, none, some, ◌≡◌, ◌≢◌, refl, arith, List, [], ◌∷◌,
}
use homelab_homepage.Certs.{
  Resource, Cert, Lib, Manager, World, thirty_days, is_due, get_certificate, load_pair,
  try_load_existing, save_cert, save_answer, obtain, renew, use_self_signed, ensure_cert, or_obtain,
  or_self_signed, renew_tick,
}

module _ (lib : Lib) (w : World) where
  -- The pair of files is there, fits, and is not due.
  abbrev pub IsUsable : Manager → Cert → Type 0
  IsUsable m c =
      (cert key : String) × (m.files.cert_pem ≡ some cert)
      × (m.files.key_pem ≡ some key)
      × (lib.key_pair cert key ≡ some c)
      × (is_due w.now c.not_after ≡ false)

  save_cert-cert :
      (res : Resource) (m : Manager)
      → ((save_cert lib w res m).0 ≡ true
          → (save_cert lib w res m).1.cert ≡ lib.key_pair res.certificate res.private_key)
        × ((save_cert lib w res m).0 ≡ true → (save_cert lib w res m).1.cert ≢ none)
        × ((save_cert lib w res m).0 ≡ false → (save_cert lib w res m).1.cert ≡ m.cert)
  unfolding save_cert
  save_cert-cert res m = ground arith

  pub ensure_cert-usable :
      (m : Manager) (c : Cert)
      → IsUsable m c
      → ensure_cert lib w m ≡ (true, record m { cert = some c })
  unfolding ensure_cert try_load_existing
  ensure_cert-usable m c (cert, key, a, b, pair, due) = ground (arith, a, b, pair, due)

  -- A call that is said to succeed has left a certificate.
  abbrev HasCert : Bool × Manager → Type 0
  HasCert (good, m) = good ≡ true → m.cert ≢ none

  load_pair-HasCert : (c : Option Cert) (m : Manager) → HasCert (load_pair lib w c m)
  load_pair-HasCert none m = ground arith
  load_pair-HasCert (some c) m = ground arith

  try_load_existing-HasCert : (m : Manager) → HasCert (try_load_existing lib w m)
  unfolding try_load_existing
  try_load_existing-HasCert m = ground arith

  save_answer-HasCert : (r : Option Resource) (m : Manager) → HasCert (save_answer lib w r m)
  save_answer-HasCert none m = ground arith
  save_answer-HasCert (some res) m = (save_cert-cert res m).1

  obtain-HasCert : (m : Manager) → HasCert (obtain lib w m)
  unfolding obtain
  obtain-HasCert m = ground (arith, save_answer-HasCert w.obtained m)

  or_self_signed-HasCert :
      (r : Bool × Manager)
      → HasCert r
      → HasCert (or_self_signed lib w r)
        × ((or_self_signed lib w r).0 ≡ false → w.self_signed ≡ none)
  unfolding use_self_signed
  or_self_signed-HasCert (true, m) h = (h, ground arith)
  or_self_signed-HasCert (false, m) h = ground arith

  or_obtain-HasCert :
      (r : Bool × Manager)
      → HasCert r
      → HasCert (or_obtain lib w r) × ((or_obtain lib w r).0 ≡ false → w.self_signed ≡ none)
  or_obtain-HasCert (true, m) h = (h, ground arith)
  or_obtain-HasCert (false, m) h = or_self_signed-HasCert (obtain lib w m) (obtain-HasCert m)

  -- After a call that is said to succeed there is a certificate to serve, and a call fails only if
  -- no self-signed certificate can be made.
  pub ensure_cert_lem :
      (m : Manager)
      → ((ensure_cert lib w m).0 ≡ true → get_certificate (ensure_cert lib w m).1 ≢ none)
        × ((ensure_cert lib w m).0 ≡ false → w.self_signed ≡ none)
  unfolding ensure_cert get_certificate
  ensure_cert_lem m = or_obtain-HasCert (try_load_existing lib w m) (try_load_existing-HasCert m)

  -- While the certificate is not due, a round of the loop does nothing.
  renew_tick-idle :
      (m : Manager) (c : Cert)
      → m.cert ≡ some c
      → is_due w.now c.not_after ≡ false
      → renew_tick lib w m ≡ m
  unfolding renew_tick
  renew_tick-idle m c e due = ground (arith, e, due)

-- Rounds of the loop, each with what it meets.
unfoldable pub renew_loop : Lib → List World → Manager → Manager
renew_loop lib [] m = m
renew_loop lib (w ∷ ws) m = renew_loop lib ws (renew_tick lib w m)

-- The rounds come before the last thirty days of `not_after`.
abbrev pub AreEarly : ℕ → List World → Type 0
AreEarly not_after [] = Unit {0}
AreEarly not_after (w ∷ ws) = (w.now + thirty_days ≤ not_after) × AreEarly not_after ws

renew_loop-idle :
    (lib : Lib) (ws : List World) (m : Manager) (c : Cert) (end : ℕ)
    → m.cert ≡ some c
    → c.not_after ≡ some end
    → AreEarly end ws
    → renew_loop lib ws m ≡ m
unfolding renew_loop
renew_loop-idle lib [] m c end e n h = refl
renew_loop-idle lib (w ∷ ws) m c end e n (early, h) =
    let same = renew_tick-idle lib w m c e (ground (arith, n, early)) in
    rw same (renew_loop-idle lib ws m c end e n h)

pub self_signed-kept :
    (lib : Lib) (w : World) (ws : List World) (m : Manager) (c : Cert) (end : ℕ)
    → w.self_signed ≡ some c
    → c.not_after ≡ some end
    → AreEarly end ws
    → let (good, after) = use_self_signed lib w m in
      (good ≡ true) × (get_certificate (renew_loop lib ws after) ≡ some c)
unfolding use_self_signed get_certificate
self_signed-kept lib w ws m c end made n h =
    rw made (refl, rw (renew_loop-idle lib ws (record m { cert = some c }) c end refl n h) refl)

-- What lego documents: the two texts are left out of the JSON of a resource, and a resource without
-- a certificate cannot be renewed.
pub record DropsTexts (lib : Lib) (w : World) : Type 0 where
  pub dropped :
      (raw : String) (res : Resource) → lib.unmarshal raw ≡ some res → res.certificate ≡ ""
  pub refused : (res : Resource) → res.certificate ≡ "" → w.renewed res ≡ none

pub renew-fails :
    (lib : Lib) (w : World) (m : Manager) (raw : String) (res : Resource)
    → DropsTexts lib w
    → m.files.resource_json ≡ some raw
    → lib.unmarshal raw ≡ some res
    → renew lib w m ≡ (false, m)
unfolding renew
renew-fails lib w m raw res d file read =
    let refused = d.refused res (d.dropped raw res read) in ground (arith, file, read, refused)

-- What a round with a saved resource meets.
abbrev pub AllDrop : Lib → List World → Type 0
AllDrop lib [] = Unit {0}
AllDrop lib (w ∷ ws) = DropsTexts lib w × AllDrop lib ws

-- Where the documented behaviour of the library holds, that the JSON of a resource leaves the
-- certificate out and that a resource without a certificate cannot be renewed, and while a
-- certificate is in use and the saved resource can be read, no number of rounds of the renewal
-- loop changes anything: the certificate in use stays, whatever its age.
pub renew_loop-fails :
    (lib : Lib) (ws : List World) (m : Manager) (c : Cert) (raw : String) (res : Resource)
    → AllDrop lib ws
    → m.cert ≡ some c
    → m.files.resource_json ≡ some raw
    → lib.unmarshal raw ≡ some res
    → renew_loop lib ws m ≡ m
unfolding renew_loop renew_tick
renew_loop-fails lib [] m c raw res d e file read = refl
renew_loop-fails lib (w ∷ ws) m c raw res (d, ds) e file read =
    let fails = renew-fails lib w m raw res d file read in
    let same : renew_tick lib w m ≡ m = ground (arith, e, fails) in
    rw same (renew_loop-fails lib ws m c raw res ds e file read)
