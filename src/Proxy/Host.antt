-- ===== src/Proxy/Host.antt =====
-- internal/proxy/proxy.go: the hosts that `ServeHTTP` tells apart.
use text.Mathlib.TextLemmas.{cons-append, nil-append, length-append, append_cancel_right}
use Prim.Native.String.{count}
use homelab_homepage.Prelude.{
  String, ◌<>◌, false, Option, none, some, ◌≡◌, ◌≢◌, ◌≤◌, refl, arith, string_eq, ◌∙◌, ap,
  ℕ_discrete,
}
use homelab_homepage.Go.Text.{
  cut_last-append, cut_last-none, has_byte, has_byte-append, has_suffix-append, trim_suffix-append,
}
use homelab_homepage.Proxy.{web_handler, subdomain, strip_port, route_host, serve_http}

-- A host with a port, or without one.
abbrev pub with_port : String → Option String → String
with_port host none = host
with_port host (some port) = host <> (":" <> port)

abbrev pub IsPortText : Option String → Type 0
IsPortText none = Unit {0}
IsPortText (some port) = has_byte b':' port ≡ false

strip_port-with_port :
    (host : String) (port : Option String)
    → has_byte b':' host ≡ false
    → IsPortText port
    → strip_port (with_port host port) ≡ host
unfolding strip_port
strip_port-with_port host none h p = ground (arith, cut_last-none b':' host h)
strip_port-with_port host (some port) h p =
    rw (cons-append, nil-append) (ground (arith, cut_last-append b':' host ":" port refl p))

-- A host below the domain is longer than the domain.
below-domain : (sub domain s : String) → count s ≤ count domain → sub <> ("." <> domain) ≢ s
below-domain sub domain s h e =
    omega (arith, ap count e, length-append sub ("." <> domain), length-append "." domain, h)

dot-no_colon : has_byte b':' "." ≡ false
unfolding has_byte ℕ_discrete
dot-no_colon = refl

lantern-no_colon : has_byte b':' "lantern" ≡ false
unfolding has_byte ℕ_discrete
lantern-no_colon = refl

below-no_colon :
    (sub domain : String)
    → has_byte b':' sub ≡ false
    → has_byte b':' domain ≡ false
    → has_byte b':' (sub <> ("." <> domain)) ≡ false
below-no_colon sub domain s d =
    rw
      (
        has_byte-append b':' sub ("." <> domain),
        has_byte-append b':' "." domain,
        s,
        d,
        dot-no_colon,
      )
      refl

route_host-subdomain :
    (domain sub : String)
    → sub ≢ "lantern"
    → route_host domain (sub <> ("." <> domain)) ≡ subdomain sub
unfolding route_host
route_host-subdomain domain sub other = ground (
  arith,
  λ (e : sub <> ("." <> domain) ≡ "lantern" <> ("." <> domain)).
      other (append_cancel_right sub "lantern" ("." <> domain) e),
  below-domain sub domain domain (omega arith),
  below-domain sub domain "" (omega arith),
  has_suffix-append sub ("." <> domain),
  trim_suffix-append sub ("." <> domain),
)

-- For a domain, a subdomain and a port without a colon, or no port, the domain itself and lantern
-- below it give the web pages, and every other subdomain gives the proxy for that subdomain.
pub serve_http-subdomain :
    (domain sub : String) (port : Option String)
    → has_byte b':' domain ≡ false
    → has_byte b':' sub ≡ false
    → IsPortText port
    → (serve_http domain (with_port domain port) ≡ web_handler)
      × (serve_http domain (with_port ("lantern" <> ("." <> domain)) port) ≡ web_handler)
      × (sub ≢ "lantern"
          → serve_http domain (with_port (sub <> ("." <> domain)) port) ≡ subdomain sub)
unfolding serve_http
serve_http-subdomain domain sub port d s p = (
  ap (route_host domain) (strip_port-with_port domain port d p)
      ∙ (unfold route_host in ground arith),
  ap (route_host domain)
        (strip_port-with_port _ port (below-no_colon "lantern" domain lantern-no_colon d) p)
      ∙ (unfold route_host in ground arith),
  λ other.
      ap (route_host domain) (strip_port-with_port _ port (below-no_colon sub domain s d) p)
      ∙ route_host-subdomain domain sub other,
)
