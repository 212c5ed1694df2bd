-- ===== src/Tunnel/Manager/Outcome.antt =====
-- internal/tunnel/manager.go: what is left after creation and deletion.
use homelab_homepage.Prelude.{
  ℕ, String, Bool, true, false, Option, none, some, ◌≡◌, ◌≢◌, arith, string_eq, nat_eq,
  if◌then◌else◌,
}
use homelab_homepage.Store.Data.{TunnelInfo}
use homelab_homepage.Cf.Act.{ok}
use homelab_homepage.Cf.Api.{Api}
use homelab_homepage.Cf.Client.{Client}
use homelab_homepage.Cf.Tunnel
use homelab_homepage.Tunnel.Process.{System, start_process, stop, stop_step, outside, launch_cmd}
use homelab_homepage.Tunnel.Stopped.{IsSound}
use homelab_homepage.Tunnel.Manager.{
  Tunnels, Draw, fragment, tunnel_exists, server_error, create, delete, status, delete_of,
  handle_create_tunnel,
}

start_process-running :
    (starts : Bool) (s : System)
    → IsSound s
    → s.root_done ≡ false
    → s.running ≡ false
    → ((start_process starts s).0 ≡ starts) × ((start_process starts s).1.running ≡ starts)
unfolding start_process launch_cmd
start_process-running starts s v live idle =
    let (fresh, unwatched) = v.fresh_ctx s.next_ctx (omega arith) in
    ground (arith, live, idle, fresh)

stop-running : (i : ℕ) (s : System) → s.stops i ≡ outside → (stop i s).running ≡ false
unfolding stop stop_step
stop-running i s out = ground (arith, out)

-- The entry that `Create` stores.
abbrev pub stored : Draw → String → String → TunnelInfo
stored draw id token = record { tunnel_id = id; token = token; created_at = draw.now }

module _ (api : Api) where
  -- If the manager is sound and idle, nothing is stored, the application is not shutting down, and
  -- Cloudflare makes a tunnel with an id that is not empty, then the answer is a success exactly
  -- when the process can be started; either way the tunnel is stored and shown by the status, and
  -- every further creation is refused and changes nothing.
  pub handle_create_tunnel_lem :
      (draw again : Draw) (t : Tunnels api) (id token : String) (client : Client)
      (world : api.World)
      → IsSound t.system
      → t.system.root_done ≡ false
      → t.system.running ≡ false
      → t.tunnel ≡ none
      → id ≢ ""
      → Tunnel.create_tunnel api t.client draw.secret "lantern" t.world
        ≡ (ok ((id, token), client), world)
      → let (a, u) = handle_create_tunnel api draw t in
        (a ≡ (if draw.starts then fragment else server_error))
        × (u.tunnel ≡ some (stored draw id token))
        × (status api u ≡ record { tunnel_id = id; running = draw.starts; created_at = draw.now })
        × (handle_create_tunnel api again u ≡ (tunnel_exists, u))
  unfolding handle_create_tunnel create status
  handle_create_tunnel_lem draw again t id token client world v live idle empty named made =
      let (good, running) = start_process-running draw.starts t.system v live idle in
      ground (arith, empty, named, made, good, running)

  delete_of-branches :
      (info : Option TunnelInfo) (t : Tunnels api)
      → ((delete_of api info t).1.system ≡ t.system)
        × ((delete_of api info t).0 ≡ true
            → ((delete_of api info t).1.tunnel ≡ none)
              × ((delete_of api info t).1.client.tunnel_id ≡ ""))
        × ((delete_of api info t).0 ≡ false
            → ((delete_of api info t).1.tunnel ≡ t.tunnel)
              × ((delete_of api info t).1.client ≡ t.client))
  delete_of-branches info t = ground arith

  pub delete_lem :
      (draw : Draw) (t : Tunnels api)
      → t.system.stops draw.stopper ≡ outside
      → let (good, u) = delete api draw t in
        ((status api u).running ≡ false)
        × (u.system ≡ stop draw.stopper t.system)
        × (good ≡ true → (u.tunnel ≡ none) × (u.client.tunnel_id ≡ ""))
        × (good ≡ false → (u.tunnel ≡ t.tunnel) × (u.client ≡ t.client) × (t.tunnel ≢ none))
  unfolding delete status
  delete_lem draw t out = let idle = stop-running draw.stopper t.system out in ground (arith, idle)
