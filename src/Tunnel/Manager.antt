-- ===== src/Tunnel/Manager.antt =====
-- internal/tunnel/manager.go and internal/web/handle_tunnel.go: creation, deletion and status of the
-- tunnel, with the store's entry, the client, and the process. No event of another goroutine comes
-- between the parts of one call here; Tunnel/Process has those.
pub mod Outcome
use homelab_homepage.Prelude.{
  ℕ, String, Bool, true, false, Option, none, some, ◌==◌, ◌!=◌, string_eq, if◌then◌else◌,
}
use homelab_homepage.Store.Data.{TunnelInfo}
use homelab_homepage.Cf.Act.{Result, ok, err}
use homelab_homepage.Cf.Api.{Api}
use homelab_homepage.Cf.Client.{Client, set_tunnel_id}
use homelab_homepage.Cf.Tunnel
use homelab_homepage.Tunnel.Process.{System, start_process, stop}

-- `tunnel` is the entry of the store, and `system` has the manager's fields and the process.
pub record Tunnels (api : Api) : Type 0 where
  pub system : System
  pub tunnel : Option TunnelInfo
  pub client : Client
  pub world : api.World

pub record TunnelStatus : Type 0 where
  pub tunnel_id : String
  pub running : Bool
  pub created_at : ℕ

-- The answers of the handlers; `fragment` is 200 with the page's part, and the other one has an error.
pub data Answer : Type 0 where
  fragment : Answer
  tunnel_exists : Answer
  server_error : Answer

-- What one call draws: the secret of the tunnel, the time, whether the process can be started, and the
-- number of the goroutine that stops it.
pub record Draw : Type 0 where
  pub secret : String
  pub now : ℕ
  pub starts : Bool
  pub stopper : ℕ

module _ (api : Api) where
  abbrev pub started : Bool × System → Tunnels api → Bool × Tunnels api
  started (good, system) t = (good, record t { system = system })

  abbrev pub start_token : Bool → Tunnels api → Bool × Tunnels api
  start_token starts t = started (start_process starts t.system) t

  abbrev pub start_of : Bool → Option TunnelInfo → Tunnels api → Bool × Tunnels api
  start_of starts none t = (true, t)
  start_of starts (some info) t =
      start_token starts (record t { client = set_tunnel_id info.tunnel_id t.client })

  -- With whether there was no error.
  unfoldable pub start_if_configured : Bool → Tunnels api → Bool × Tunnels api
  start_if_configured starts t = start_of starts t.tunnel t

  abbrev pub create_of :
      Draw → Result ((String × String) × Client) → Tunnels api → Bool × Tunnels api
  create_of draw (err e) t = (false, t)
  create_of draw (ok ((tunnel_id, token), client)) t = start_token draw.starts (record t {
    client = client;
    tunnel = some (record { tunnel_id = tunnel_id; token = token; created_at = draw.now });
  })

  unfoldable pub create : Draw → Tunnels api → Bool × Tunnels api
  create draw t =
      let (r, world) = Tunnel.create_tunnel api t.client draw.secret "lantern" t.world in
      create_of draw r (record t { world = world })

  abbrev pub cleared : Tunnels api → Tunnels api
  cleared t = record t { tunnel = none; client = set_tunnel_id "" t.client }

  abbrev pub delete_answered : Result (Unit {0}) → Tunnels api → Bool × Tunnels api
  delete_answered (err e) t = (false, t)
  delete_answered (ok u) t = (true, cleared t)

  abbrev pub delete_of : Option TunnelInfo → Tunnels api → Bool × Tunnels api
  delete_of none t = (true, cleared t)
  delete_of (some info) t =
      let (r, world) = Tunnel.delete_tunnel api t.client info.tunnel_id t.world in
      delete_answered r (record t { world = world })

  unfoldable pub delete : Draw → Tunnels api → Bool × Tunnels api
  delete draw t = delete_of t.tunnel (record t { system = stop draw.stopper t.system })

  abbrev pub status_of : Option TunnelInfo → Bool → TunnelStatus
  status_of none running = record { tunnel_id = ""; running = false; created_at = 0 }
  status_of (some info) running = record {
    tunnel_id = info.tunnel_id;
    running = running;
    created_at = info.created_at;
  }

  unfoldable pub status : Tunnels api → TunnelStatus
  status t = status_of t.tunnel t.system.running

  abbrev pub answered : Bool × Tunnels api → Answer × Tunnels api
  answered (good, t) = (if good then fragment else server_error, t)

  -- The handlers, of a server that has a manager.
  unfoldable pub handle_create_tunnel : Draw → Tunnels api → Answer × Tunnels api
  handle_create_tunnel draw t =
      if (status t).tunnel_id != "" then (tunnel_exists, t) else answered (create draw t)

  unfoldable pub handle_delete_tunnel : Draw → Tunnels api → Answer × Tunnels api
  handle_delete_tunnel draw t = answered (delete draw t)
