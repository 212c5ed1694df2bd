-- ===== src/Proxy/Cached.antt =====
-- internal/proxy/proxy.go: the cache of the proxies.
use homelab_homepage.Prelude.{
  String, Option, none, some, List, [], ◌∷◌, ◌≡◌, refl, arith, ◌==◌, string_eq, inl, inr,
  Bool-cases, ◌∙◌, ap, map,
}
use homelab_homepage.Go.Map.{lookup, insert, erase, lookup-insert, lookup-erase, lookup-nil}
use homelab_homepage.Go.Heap.{Ref}
use homelab_homepage.Store.Services
use homelab_homepage.Store.Services.{Services, get_service_by_subdomain}
use homelab_homepage.Proxy.{
  Url, Urls, ProxyEntry, Served, no_service, invalid_target, forwarded, Proxies, build_proxy,
  with_entry, with_target, with_service, proxy_subdomain,
}

module _ (urls : Urls) where
  -- The proxy of every entry is the one of its subdomain and its text.
  abbrev pub IsCoherent : Proxies → Type 0
  IsCoherent proxies =
      (sub : String) (e : ProxyEntry)
      → lookup sub proxies ≡ some e
      → (target : Url) × (urls.parse e.target ≡ some target) × (e.rp ≡ build_proxy sub target)

  -- The answer without a cache, from the services as they are.
  abbrev pub direct_target : String → Option Url → Served
  direct_target sub none = invalid_target
  direct_target sub (some target) = forwarded (build_proxy sub target)

  abbrev pub direct_service : String → Services → Option Ref → Served
  direct_service sub services none = no_service
  direct_service sub services (some p) =
      direct_target sub (urls.parse (Services.deref services p).target)

  unfoldable pub direct : Services → String → Served
  direct services sub = direct_service sub services (get_service_by_subdomain sub services)

  insert-IsCoherent :
      (sub text : String) (target : Url) (proxies : Proxies)
      → urls.parse text ≡ some target
      → IsCoherent proxies
      → IsCoherent (insert sub (record { rp = build_proxy sub target; target = text }) proxies)
  insert-IsCoherent sub text target proxies parsed v k e found = elim (Bool-cases (sub == k)) [
    | inl same ↦ (
      target,
      ground (
        arith,
        parsed,
        found,
        same,
        lookup-insert k sub (record { rp = build_proxy sub target; target = text }) proxies,
      ),
      ground (
        arith,
        found,
        same,
        lookup-insert k sub (record { rp = build_proxy sub target; target = text }) proxies,
      ),
    )
    | inr other ↦ v k e (
        ground (
          arith,
          found,
          other,
          lookup-insert k sub (record { rp = build_proxy sub target; target = text }) proxies,
        ))
  ]

  erase-IsCoherent :
      (sub : String) (proxies : Proxies) → IsCoherent proxies → IsCoherent (erase sub proxies)
  erase-IsCoherent sub proxies v k e found =
      v k e (ground (arith, found, lookup-erase k sub proxies))

  with_entry-direct :
      (sub text : String) (target : Url) (entry : Option ProxyEntry) (proxies : Proxies)
      → lookup sub proxies ≡ entry
      → urls.parse text ≡ some target
      → IsCoherent proxies
      → let (served, after) = with_entry sub text target entry proxies in
        (served ≡ forwarded (build_proxy sub target)) × IsCoherent after
  with_entry-direct sub text target none proxies found parsed v =
      (refl, insert-IsCoherent sub text target proxies parsed v)
  with_entry-direct sub text target (some e) proxies found parsed v =
      elim (Bool-cases (e.target == text)) [
        | inl same ↦
            let (url, parse, rp) = v sub e found in
            rw same (ground (arith, parse, parsed, rp, same), v)
        | inr other ↦ rw other (refl, insert-IsCoherent sub text target proxies parsed v)
      ]

  with_target-direct :
      (sub text : String) (parsed : Option Url) (proxies : Proxies)
      → urls.parse text ≡ parsed
      → IsCoherent proxies
      → let (served, after) = with_target sub text parsed proxies in
        (served ≡ direct_target sub parsed) × IsCoherent after
  with_target-direct sub text none proxies e v = (refl, v)
  with_target-direct sub text (some target) proxies e v =
      with_entry-direct sub text target (lookup sub proxies) proxies refl e v

  with_service-direct :
      (sub : String) (services : Services) (r : Option Ref) (proxies : Proxies)
      → IsCoherent proxies
      → let (served, after) = with_service urls sub services r proxies in
        (served ≡ direct_service sub services r) × IsCoherent after
  with_service-direct sub services none proxies v = (refl, erase-IsCoherent sub proxies v)
  with_service-direct sub services (some p) proxies v =
      with_target-direct sub (Services.deref services p).target _ proxies refl v

  -- Requests for subdomains, each with the services as they are at its time.
  unfoldable pub serve_all : List (Services × String) → Proxies → List Served × Proxies
  serve_all [] proxies = ([], proxies)
  serve_all ((services, sub) ∷ requests) proxies =
      let (served, after) = proxy_subdomain urls services sub proxies in
      let (rest, last) = serve_all requests after in (served ∷ rest, last)

  pub proxy_subdomain-IsCoherent :
      (services : Services) (sub : String) (proxies : Proxies)
      → IsCoherent proxies
      → let (served, after) = proxy_subdomain urls services sub proxies in
        (served ≡ direct services sub) × IsCoherent after
  unfolding proxy_subdomain direct
  proxy_subdomain-IsCoherent services sub proxies v =
      with_service-direct sub services (get_service_by_subdomain sub services) proxies v

  serve_all-IsCoherent :
      (requests : List (Services × String)) (proxies : Proxies)
      → IsCoherent proxies
      → (serve_all requests proxies).0 ≡ map (λ (services, sub). direct services sub) requests
  unfolding serve_all
  serve_all-IsCoherent [] proxies v = refl
  serve_all-IsCoherent ((services, sub) ∷ requests) proxies v =
      let (e, w) = proxy_subdomain-IsCoherent services sub proxies v in
      ap (λ x. x ∷ (serve_all requests (proxy_subdomain urls services sub proxies).1).0) e
      ∙ ap (λ l. direct services sub ∷ l) (serve_all-IsCoherent requests _ w)

  -- From an empty cache, any sequence of requests, each with the services as they are at its time,
  -- is answered as without a cache: by the current target of the current service of the subdomain,
  -- or by the answers for no service and for a target that cannot be parsed.
  pub serve_all-direct :
      (requests : List (Services × String))
      → (serve_all requests []).0 ≡ map (λ (services, sub). direct services sub) requests
  serve_all-direct requests =
      serve_all-IsCoherent requests []
        (λ sub e found. ground (arith, found, lookup-nil {V = ProxyEntry} sub))
