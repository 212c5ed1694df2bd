-- ===== src/Tunnel/Tests.antt =====
-- Processes, watchers and the creation of a tunnel at concrete states.
use homelab_homepage.Prelude.{
  ℕ, ◌+◌, String, ◌≡◌, ◌≢◌, refl, true, false, none, some, List, [], ◌∷◌, arith, if◌then◌else◌,
  string_eq, string_dec, differ, ℕ_discrete,
}
use homelab_homepage.Cf.Act.{Result, ok, err, request_failed}
use homelab_homepage.Cf.Api.{Api, Request, Response, post_tunnel, get_token, tunnel_of, token_of}
use homelab_homepage.Cf.Client.{Client}
use homelab_homepage.Cf.Tunnel
use homelab_homepage.Tunnel.Process.{
  System, Event, starting, watching, exiting, waiting, ended, new, run, step, start_process,
  launch_cmd, watch, stop, stop_step,
}
use homelab_homepage.Tunnel.Stopped.{run-new-IsSound, stop_final}
use homelab_homepage.Tunnel.Restart.{
  restart, restart_lem, four_steps, watcher-ended, second_process,
}
use homelab_homepage.Tunnel.Manager.{
  Tunnels, Draw, fragment, tunnel_exists, server_error, status, handle_create_tunnel,
}
use homelab_homepage.Tunnel.Manager.Outcome.{stored, handle_create_tunnel_lem}

-- A process runs, and its watcher waits for it.
abbrev begun : List Event
begun = starting true ∷ watching true true 0 ∷ []

abbrev started : System
started = run begun new

-- After a stop, another start.
abbrev later : System
later = run (starting true ∷ []) (stop 7 started)

stop_final_example : later.ctx_of 1 ≢ 0
unfolding run step start_process launch_cmd watch stop stop_step ℕ_discrete
stop_final_example =
    stop_final 7 0 0 started (starting true ∷ []) (run-new-IsSound begun) refl refl refl
      (λ q a o. ground (arith, a, o)) 1 refl

-- The process has ended by itself.
abbrev crashed : System
crashed = run (starting true ∷ watching true true 0 ∷ exiting 0 ∷ []) new

restart_lem_example :
    let t = run (restart true 0) crashed in
    (t.stage 0 ≡ waiting crashed.next_proc)
    × (t.cmd ≡ some crashed.next_proc)
    × (t.running ≡ true)
    × (t.alive crashed.next_proc ≡ true)
    × (t.ctx_of crashed.next_proc ≡ 0)
unfolding run step start_process launch_cmd watch ℕ_discrete
restart_lem_example = restart_lem 0 0 crashed refl refl refl

-- It is stopped while it runs.
abbrev stopped : System
stopped = stop 7 started

watcher-ended_example :
    let t = run (four_steps (true, true) (true, true) (true, true) (true, true) 0) stopped in
    (t.stage 0 ≡ ended) × (t.next_proc ≡ stopped.next_proc)
unfolding run step start_process launch_cmd watch stop stop_step ℕ_discrete
watcher-ended_example =
    watcher-ended 0 stopped (waiting 0) (true, true) (true, true) (true, true) (true, true) refl
      refl refl

-- The watcher pauses after the end of its process.
abbrev pausing : List Event
pausing =
    starting true
    ∷ watching true true 0
    ∷ exiting 0
    ∷ watching true true 0
    ∷ watching true true 0
    ∷ watching true true 0
    ∷ []

abbrev paused : System
paused = run pausing new

second_process_example :
    let t = run (starting true ∷ watching true true 0 ∷ watching true true 0 ∷ []) paused in
    (t.alive paused.next_proc ≡ true)
    × (t.alive (paused.next_proc + 1) ≡ true)
    × (t.cmd ≡ some (paused.next_proc + 1))
    × (t.cancel ≡ some paused.next_ctx)
    × (t.ctx_of (paused.next_proc + 1) ≡ 0)
unfolding run step start_process launch_cmd watch ℕ_discrete
second_process_example = second_process 0 paused (run-new-IsSound pausing) refl refl refl

-- A service that makes a tunnel; its world counts the calls.
abbrev answer : Request → ℕ → Result Response × ℕ
answer (post_tunnel a n s) w = (ok (tunnel_of "t1"), w + 1)
answer (get_token a t) w = (ok (token_of "secret"), w + 1)
answer _ w = (err request_failed, w + 1)

abbrev simulated : Api
simulated = record { World = ℕ; send = answer }

abbrev client : Client
client = record { zone_id = "z"; account_id = "a"; tunnel_id = ""; noop = false }

abbrev tunnels : Tunnels simulated
tunnels = record { system = run [] new; tunnel = none; client = client; world = 0 }

-- The process cannot be started.
abbrev draw : Draw
draw = record { secret = "32 bytes"; now = 5; starts = false; stopper = 1 }

abbrev t1 : String
t1 = "t1"

t1-named : t1 ≢ ""
unfolding string_dec
t1-named = differ t1 "" refl

handle_create_tunnel_lem_example :
    let (a, u) = handle_create_tunnel simulated draw tunnels in
    (a ≡ (if draw.starts then fragment else server_error))
    × (u.tunnel ≡ some (stored draw t1 "secret"))
    × (status simulated u ≡ record { tunnel_id = t1; running = draw.starts; created_at = draw.now })
    × (handle_create_tunnel simulated draw u ≡ (tunnel_exists, u))
unfolding run string_dec Tunnel.create_tunnel
handle_create_tunnel_lem_example =
    handle_create_tunnel_lem simulated draw draw tunnels t1 "secret"
      (record client { tunnel_id = "t1" }) 2 (run-new-IsSound []) refl refl refl t1-named refl
