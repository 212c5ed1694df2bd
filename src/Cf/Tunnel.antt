-- ===== src/Cf/Tunnel.antt =====
-- The tunnel operations of internal/cf/tunnel.go and internal/cf/cf.go. The lock on the ingress
-- rules is held through each change, so that a change is one step here.
pub mod Served
use homelab_homepage.Prelude.{
  String, Bool, true, false, ◌||◌, not, Option, none, some, List, map, ◌==◌, string_eq,
  if◌then◌else◌,
}
use homelab_homepage.Cf.Act.{
  Result, ok, err, decode_failed, not_configured, Act, pure, fail, ◌>>=◌, ◌>>◌, attempt,
}
use homelab_homepage.Cf.Api.{
  Api, IngressRule, Response, decoded, config, tunnel_of, token_of, get_config, put_config,
  post_tunnel, get_token, delete_tunnel as delete_cfd,
}
use homelab_homepage.Cf.Client.{Client, set_tunnel_id, tunnel_enabled}
use homelab_homepage.Cf.Dns.{find_record, delete_record, create_cname}
use homelab_homepage.Cf.Ingress.{rewrite_ingress, with_route, without_route, replace_route}

abbrev pub as_config : Response → Result (List IngressRule)
as_config (config entries) = ok (map decoded entries)
as_config _ = err decode_failed

abbrev pub as_tunnel : Response → Result String
as_tunnel (tunnel_of id) = ok id
as_tunnel _ = err decode_failed

abbrev pub as_token : Response → Result String
as_token (token_of t) = ok t
as_token _ = err decode_failed

module _ (api : Api) (c : Client) where
  open api use {World, send}

  unfoldable pub modify_ingress : (List IngressRule → List IngressRule) → Act World (Unit {0})
  modify_ingress fn = do
    r ← send (get_config c.account_id c.tunnel_id)
    rules ← (λ w. (as_config r, w))
    send (put_config c.account_id c.tunnel_id (rewrite_ingress fn rules))
    pure tt

  -- The record that `FindRecord` gave, its error dropped, is deleted; an error of that is logged.
  unfoldable pub delete_stale : Option (String × String) → Act World (Option (Unit {0}))
  delete_stale none = pure none
  delete_stale (some (id, _)) = if id == "" then pure none else attempt (delete_record api c id)

  unfoldable pub add_tunnel_route : String → String → Act World String
  add_tunnel_route hostname backend = if not (tunnel_enabled c) then pure "" else (do
    modify_ingress (with_route hostname backend)
    found ← attempt (find_record api c hostname)
    delete_stale found
    create_cname api c hostname)

  unfoldable pub remove_tunnel_route : String → String → Act World (Unit {0})
  remove_tunnel_route hostname cname_id = if not (tunnel_enabled c) then pure tt else (do
    modify_ingress (without_route hostname)
    if cname_id == "" then pure tt else delete_record api c cname_id)

  unfoldable pub replace_tunnel_route : String → String → String → String → Act World String
  replace_tunnel_route old_hostname new_hostname backend old_cname_id =
      if not (tunnel_enabled c) then pure "" else (do
        modify_ingress (replace_route old_hostname new_hostname backend)
        if old_cname_id == "" then pure none else attempt (delete_record api c old_cname_id)
        create_cname api c new_hostname)

  -- The secret is 32 random bytes in base64. A success also sets the tunnel of the client.
  unfoldable pub create_tunnel : String → String → Act World ((String × String) × Client)
  create_tunnel secret name = if c.noop || c.account_id == "" then fail not_configured else (do
    r ← send (post_tunnel c.account_id name secret)
    id ← (λ w. (as_tunnel r, w))
    t ← send (get_token c.account_id id)
    token ← (λ w. (as_token t, w))
    pure ((id, token), set_tunnel_id id c))

  unfoldable pub delete_tunnel : String → Act World (Unit {0})
  delete_tunnel id =
      if c.noop || c.account_id == ""
      then pure tt
      else (do send (delete_cfd c.account_id id); pure tt)
