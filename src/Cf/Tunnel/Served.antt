-- ===== src/Cf/Tunnel/Served.antt =====
-- internal/cf/tunnel.go: the tunnel operations at a service that answers.
use homelab_homepage.Prelude.{
  String, ◌≡◌, ◌≢◌, refl, true, Bool, Option, none, some, List, map, arith, ◌==◌, string_eq,
  if◌then◌else◌, ◌||◌, Bool-cases, inl, inr, ◌∙◌, subst,
}
use homelab_homepage.Cf.Act.{ok, Act, ◌>>=◌, attempt, caught}
use homelab_homepage.Cf.Api.{
  Api, IngressRule, IngressEntry, decoded, encoded, DnsParams, Response, record_of, config,
  get_config, put_config, post_dns, find_dns, delete_dns,
}
use homelab_homepage.Cf.Client.{Client, tunnel_enabled}
use homelab_homepage.Cf.Dns.{
  find_record, delete_record, create_cname, create_dns_record, cname_record,
}
use homelab_homepage.Cf.Ingress.{rewrite_ingress, with_route, without_route, routed}
use homelab_homepage.Go.Text.{or_else}
use homelab_homepage.Cf.Ingress.Routes.{fallback}
use homelab_homepage.Cf.Ingress.Entries.{stripped, is_accepted, not_routed, routed-without_route}
use homelab_homepage.Cf.Tunnel.{modify_ingress, delete_stale, add_tunnel_route, remove_tunnel_route}

-- The service's documented behaviour for one tunnel: it gives the entries that were put last, and
-- creates DNS records. Looking for a record and deleting one may fail in any way.
pub record Served (api : Api) (account tunnel : String) : Type 0 where
  pub entries : api.World → List IngressEntry
  pub get_lem :
      (w : api.World) → api.send (get_config account tunnel) w ≡ (ok (config (entries w)), w)
  pub put_lem :
      (rs : List IngressRule) (w : api.World)
      → (r : Response) × (w' : api.World) × (api.send (put_config account tunnel rs) w ≡ (ok r, w'))
        × (entries w' ≡ map encoded rs)
  pub post_lem :
      (zone : String) (p : DnsParams) (w : api.World)
      → (id : String) × (w' : api.World) × (api.send (post_dns zone p) w ≡ (ok (record_of id), w'))
        × (entries w' ≡ entries w)
  pub find_lem :
      (zone name : String) (w : api.World) → entries (api.send (find_dns zone name) w).1 ≡ entries w
  pub delete_lem :
      (zone id : String) (w : api.World) → entries (api.send (delete_dns zone id) w).1 ≡ entries w

module _ (api : Api) (c : Client) (served : Served api c.account_id c.tunnel_id) where
  open api use {World, send}

  -- The run from `w` succeeds and leaves the entries `rs`.
  abbrev pub Leaves : {A : Type 0} → Act World A → World → List IngressEntry → Type 0
  Leaves {A} m w rs = (a : A) × (w' : World) × (m w ≡ (ok a, w')) × (served.entries w' ≡ rs)

  -- The entries that are written back for a change of the rules.
  abbrev pub written : (List IngressRule → List IngressRule) → World → List IngressEntry
  written fn w = map encoded (rewrite_ingress fn (map decoded (served.entries w)))

  modify_ingress_lem :
      (fn : List IngressRule → List IngressRule) (w : World)
      → Leaves (modify_ingress api c fn) w (written fn w)
  unfolding modify_ingress
  modify_ingress_lem fn w =
      let (r, w', put, now) =
        served.put_lem (rewrite_ingress fn (map decoded (served.entries w))) w in
      (tt, w', rw (served.get_lem w, put) refl, now)

  find_record-rules :
      (name : String) (w : World)
      → served.entries (attempt (find_record api c name) w).1 ≡ served.entries w
  unfolding find_record
  find_record-rules name w = ground (arith, served.find_lem c.zone_id name w)

  Leaves-bind :
      {A B : Type 0} (m : Act World A) (k : A → Act World B) (w : World)
      (mid rs : List IngressEntry)
      → Leaves m w mid
      → ((a : A) (w' : World) → served.entries w' ≡ mid → Leaves (k a) w' rs)
      → Leaves (m >>= k) w rs
  Leaves-bind m k w mid rs (a, w', runs, now) after =
      let (b, w2, runs', now') = after a w' now in (b, w2, rw runs runs', now')

  create_cname_lem :
      (hostname : String) (w : World) → Leaves (create_cname api c hostname) w (served.entries w)
  unfolding create_cname create_dns_record
  create_cname_lem hostname w = elim (Bool-cases (c.noop || c.zone_id == "")) [
    | inl off ↦ ("", w, rw off refl, refl)
    | inr on ↦
        let (id, w', posts, same) =
          served.post_lem c.zone_id (cname_record hostname c.tunnel_id) w in
        (id, w', rw (on, posts) refl, same)
  ]

  delete_record-rules :
      (id : String) (w : World) → served.entries (delete_record api c id w).1 ≡ served.entries w
  unfolding delete_record
  delete_record-rules id w = ground (arith, served.delete_lem c.zone_id id w)

  delete_stale-rules :
      (found : Option (String × String)) (w : World)
      → Leaves (delete_stale api c found) w (served.entries w)
  unfolding delete_stale
  delete_stale-rules none w = (none, w, refl, refl)
  delete_stale-rules (some (id, ip)) w = elim (Bool-cases (id == "")) [
    | inl none_found ↦ (none, w, rw none_found refl, refl)
    | inr found ↦ (
      caught (delete_record api c id w).0,
      (delete_record api c id w).1,
      rw found refl,
      delete_record-rules id w,
    )
  ]

  -- Whether an old DNS record can be found or deleted does not matter.
  pub add_tunnel_route-written :
      (hostname backend : String) (w : World)
      → tunnel_enabled c ≡ true
      → Leaves (add_tunnel_route api c hostname backend) w (written (with_route hostname backend) w)
  unfolding add_tunnel_route
  add_tunnel_route-written hostname backend w on =
      let es = written (with_route hostname backend) w in
      let (id, w', runs, now) =
        Leaves-bind (modify_ingress api c (with_route hostname backend)) _ w es es
          (modify_ingress_lem (with_route hostname backend) w)
          (λ _ w1 at1.
            Leaves-bind (attempt (find_record api c hostname)) _ w1 es es
              (_, _, refl, find_record-rules hostname w1 ∙ at1)
              (λ found w2 at2.
                Leaves-bind (delete_stale api c found) _ w2 es es
                  (subst (λ r. Leaves (delete_stale api c found) w2 r) at2
                    (delete_stale-rules found w2))
                  (λ _ w3 at3.
                    subst (λ r. Leaves (create_cname api c hostname) w3 r) at3
                      (create_cname_lem hostname w3)))) in
      (id, w', rw on runs, now)

  -- At a service that answers, with such entries, after the route of a host name that is not empty
  -- is removed from an enabled tunnel, the host goes to the catch-all and every other host where it
  -- went without paths and settings, whether or not the DNS record can be deleted too.
  pub remove_tunnel_route-rules :
      (matches : String → String → Bool) (hostname cname_id host path : String) (w : World)
      → tunnel_enabled c ≡ true
      → hostname ≢ ""
      → is_accepted (served.entries w) ≡ true
      → routed matches host path (served.entries (remove_tunnel_route api c hostname cname_id w).1)
        ≡ (if hostname == host
            then some (fallback (map decoded (served.entries w)), "")
            else some
                (or_else (routed matches host path (map stripped (served.entries w))) not_routed))
  unfolding remove_tunnel_route
  remove_tunnel_route-rules matches hostname cname_id host path w on ne accepted =
      let (_, w', runs, now) = modify_ingress_lem (without_route hostname) w in
      let same = delete_record-rules cname_id w' in
      let routes = routed-without_route matches host path hostname (served.entries w) accepted ne in
      elim (Bool-cases (cname_id == "")) [
        | inl no_record ↦ rw (on, runs, no_record, now) routes
        | inr record_kept ↦ rw (on, runs, record_kept, same, now) routes
      ]
